-- ===== src/Fleet.antt =====
-- The search on all devices: `search_cuda_all` of native/src/cuda_runtime.cu. The number of devices,
-- their chains and the search of one device are parameters; the threads' results are taken in the
-- order of the devices, as the code reads them after it has joined them all.
pub mod Shards
mod Tests
use tron_wallet_searcher.Common.{
  ℕ, zero, suc, ◌+◌, ◌-◌, ◌*◌, ◌/◌, ◌%◌, ◌^◌, List, [], ◌∷◌, Bool, true, false, not, ◌==◌, ◌&&◌,
  ◌||◌, ltb, if◌then◌else◌, Result, ok, err, Exception, invalid_argument, runtime_error, ◌>>=◌,
  ◌>>◌, throw_if, text, text_lt,
}
use tron_wallet_searcher.Pattern.{validate_pattern}
use tron_wallet_searcher.OpenSsl.{Library}
use tron_wallet_searcher.Scalars.{add_to_offset}
use tron_wallet_searcher.SearchCpu.{SearchRequest, SearchResult, empty_range}

unfoldable pub used_devices : ℕ → ℕ → ℕ
used_devices range_count available = if ltb range_count available then range_count else available

-- The candidates of one device.
unfoldable pub shard_count : ℕ → ℕ → ℕ → ℕ
shard_count range_count used device =
    range_count / used + (if ltb device (range_count % used) then 1 else 0)

-- How the call ends: by returning, by an exception, or by `std::terminate`, as where an exception
-- leaves the loop and destroys threads that are not joined.
pub data Ending (A : Type 0) : Type 0 where
  returned : A → Ending A
  thrown : Exception → Ending A
  terminated : Ending A

unfoldable pub add_shard : SearchRequest → Ending (List SearchRequest) → Ending (List SearchRequest)
add_shard shard (returned shards) = returned (shard ∷ shards)
add_shard shard (thrown error) = thrown error
add_shard shard terminated = terminated

-- The loop over the devices, from `device` on; each round starts the thread of its device.
unfoldable pub make_shards : Library → SearchRequest → ℕ → ℕ → ℕ → ℕ → Ending (List SearchRequest)
make_shards lib request used zero device relative_start = returned []
make_shards lib request used (suc rounds) device relative_start =
    let count = shard_count request.range_count used device in
    let rest = make_shards lib request used rounds (device + 1) (relative_start + count) in
    elim (add_to_offset lib request.range_start relative_start) [
      | err error ↦ if device == 0 then thrown error else terminated
      | ok range_start ↦
          add_shard (record request { range_start = range_start; range_count = count }) rest
    ]

-- What the devices answer, in their order: the first exception is thrown again.
unfoldable pub collect :
    (SearchRequest → ℕ → Result SearchResult) → ℕ → List SearchRequest → Result (List SearchResult)
collect search_shard device [] = ok []
collect search_shard device (shard ∷ shards) = do
  result ← search_shard shard device
  results ← collect search_shard (device + 1) shards
  ok (result ∷ results)

-- The hit with the least text of its offset.
unfoldable pub combine : List SearchResult → SearchResult → SearchResult
combine [] combined = combined
combine (candidate ∷ rest) combined = combine rest (
    if candidate.found && (not combined.found || text_lt candidate.offset_hex combined.offset_hex)
    then record combined {
      found = true;
      address = candidate.address;
      offset_hex = candidate.offset_hex;
    }
    else combined)

-- The checks before the first thread: the number of devices, and of those in use.
unfoldable pub fleet_devices : Library → Result ℕ → SearchRequest → Result (ℕ × ℕ)
fleet_devices lib device_count request = do
  validate_pattern request.pattern request.prefix request.suffix
  throw_if (request.range_count == 0) empty_range
  _ ← add_to_offset lib request.range_start (request.range_count - 1)
  available ← device_count
  throw_if (available == 0) (runtime_error (text "No CUDA devices are available for fleet search."))
  let used = used_devices request.range_count available
  throw_if (ltb (2 ^ 26 * used) request.range_count) (
      invalid_argument
        (text "Fleet range count exceeds 67108864 candidates per active CUDA device."))
  ok (available, used)

unfoldable pub join_fleet :
    SearchRequest → ℕ → ℕ → Result (List SearchResult) → Ending (SearchResult × ℕ × ℕ)
join_fleet request available used (err error) = thrown error
join_fleet request available used (ok results) = returned (
  combine results
      (record { found = false; address = []; offset_hex = []; attempts = request.range_count }),
  available,
  used,
)

unfoldable pub run_fleet :
    (SearchRequest → ℕ → Result SearchResult)
    → SearchRequest
    → ℕ
    → ℕ
    → Ending (List SearchRequest)
    → Ending (SearchResult × ℕ × ℕ)
run_fleet search_shard request available used (returned shards) =
    join_fleet request available used (collect search_shard 0 shards)
run_fleet search_shard request available used (thrown error) = thrown error
run_fleet search_shard request available used terminated = terminated

unfoldable pub search_cuda_all :
    Library
    → (SearchRequest → ℕ → Result SearchResult)
    → Result ℕ
    → SearchRequest
    → Ending (SearchResult × ℕ × ℕ)
search_cuda_all lib search_shard device_count request =
    elim (fleet_devices lib device_count request) [
      | err error ↦ thrown error
      | ok (available, used) ↦
          run_fleet search_shard request available used (make_shards lib request used used 0 0)
    ]
