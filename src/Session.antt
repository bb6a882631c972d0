-- ===== src/Session.antt =====
-- A search session of one device: `CudaSearchSession::Impl` of native/src/cuda_runtime.cu, but for
-- its destructor, the clock and the device's handles. The CUDA runtime is not in the repository: it
-- is a record of what its calls answer, by the names that `check_cuda` prints. A launch runs the
-- threads of its grid in order.
pub mod Search
pub mod After
pub mod Plain
pub mod Tracked
mod Tests
use tron_wallet_searcher.Common.{
  ℕ, zero, suc, ◌+◌, ◌-◌, ◌*◌, ◌/◌, ◌%◌, ◌^◌, List, [], ◌∷◌, ◌++◌, Bool, true, false, not, ◌==◌,
  ◌&&◌, ◌||◌, ltb, if◌then◌else◌, length, take, drop, replicate, map, Option, none, some, Result,
  ok, err, Exception, invalid_argument, runtime_error, logic_error, throw_if, text, text_eq, ◌>>=◌,
  ◌>>◌,
}
use tron_wallet_searcher.Common.Words.{u64}
use tron_wallet_searcher.Hex.{bytes_to_hex, host_public_key_bytes}
use tron_wallet_searcher.OpenSsl.{Library, be_bytes}
use tron_wallet_searcher.Scalars.{add_to_offset}
use tron_wallet_searcher.Address.{
  compressed_public_key, uncompressed_public_key, derive_offset_public_key,
}
use tron_wallet_searcher.Pattern.{validate_pattern}
use tron_wallet_searcher.PrefixFilter.{populate_prefix_intervals}
use tron_wallet_searcher.SearchCpu.{SearchRequest, SearchResult, search_cpu, empty_range}
use tron_wallet_searcher.Chain.Curve.{Point, zero_point, host_chain_field_from_big_endian}
use tron_wallet_searcher.Secp.Curve.{
  AffinePoint, nowhere, field_from_big_endian, scalar_multiply_u64,
}
use tron_wallet_searcher.Kernels.{DevicePattern}
use tron_wallet_searcher.Kernels.Grid.{
  atomic_min, functional_search_kernel, incremental_search_kernel, batched_search_kernel,
  chained_initialize_kernel, chained_search_kernel, batch_radius, batch_span,
}

pub data CudaSearchMode : Type 0 where
  reference : CudaSearchMode
  incremental : CudaSearchMode
  batched : CudaSearchMode
  chained8 : CudaSearchMode
  chained16 : CudaSearchMode

-- What the CUDA runtime answers: whether the call of a name fails, the multiprocessors of the device,
-- and the active blocks of a multiprocessor for a number of threads.
pub record Cuda : Type 0 where
  pub check : List ℕ → Result (Unit {0})
  pub multiprocessors : ℕ
  pub active_blocks : CudaSearchMode → ℕ → ℕ

pub record Launch : Type 0 where
  pub threads : ℕ
  pub resident_blocks : ℕ
  pub points : ℕ
  pub chains : ℕ

pub record Impl : Type 0 where
  pub mode : CudaSearchMode
  pub launch : Launch
  pub batch_table : List AffinePoint
  pub chain_points : List Point
  pub chain_stride_point : Point
  pub chain_state_valid : Bool
  pub chain_public_key : List ℕ
  pub chain_next_start : List ℕ
  pub cached_stride : Option (ℕ × AffinePoint)

unfoldable pub is_chained : CudaSearchMode → Bool
is_chained reference = false
is_chained incremental = false
is_chained batched = false
is_chained chained8 = true
is_chained chained16 = true

-- `resident_threads > best_resident_threads`, which is -1 at first.
unfoldable pub exceeds : ℕ → Option ℕ → Bool
exceeds resident none = true
exceeds resident (some best) = ltb best resident

-- The loop over the numbers of threads: the best number so far, its active blocks, and its resident
-- threads, where there are any.
unfoldable pub tune_loop :
    (ℕ → ℕ) → (ℕ → Result (Unit {0})) → List ℕ → ℕ × ℕ × Option ℕ → Result (ℕ × ℕ × Option ℕ)
tune_loop active_blocks check [] best = ok best
tune_loop active_blocks check (candidate ∷ rest) (threads, blocks, resident) =
    let active = active_blocks candidate in
    let better = exceeds (active * candidate) resident in
    let next =
      if ltb 0 active && better
      then (candidate, active, some (active * candidate))
      else (threads, blocks, resident) in
    check candidate >> tune_loop active_blocks check rest next

abbrev pub no_blocks : Exception
no_blocks = runtime_error (text "CUDA occupancy calculation returned zero active blocks.")

abbrev pub occupancy_name : CudaSearchMode → List ℕ
occupancy_name batched = text "cudaOccupancyMaxActiveBlocksPerMultiprocessor(batched)"
occupancy_name reference = text "cudaOccupancyMaxActiveBlocksPerMultiprocessor(incremental)"
occupancy_name incremental = text "cudaOccupancyMaxActiveBlocksPerMultiprocessor(incremental)"
occupancy_name chained8 = text "cudaOccupancyMaxActiveBlocksPerMultiprocessor(incremental)"
occupancy_name chained16 = text "cudaOccupancyMaxActiveBlocksPerMultiprocessor(incremental)"

unfoldable pub occupancy_launch : Cuda → CudaSearchMode → Result Launch
occupancy_launch cuda mode = do
  let name = occupancy_name mode
  best ←
      tune_loop (cuda.active_blocks mode) (λ candidate. cuda.check name) (128 ∷ 256 ∷ 64 ∷ [])
        (0, 0, none)
  throw_if ((best.0 == 0) || (best.1 == 0)) no_blocks
  ok (record {
    threads = best.0;
    resident_blocks = cuda.multiprocessors * best.1;
    points = 0;
    chains = 0;
  })

unfoldable pub tune_launch_configuration : Cuda → CudaSearchMode → Result Launch
tune_launch_configuration cuda reference =
    ok (record { threads = 128; resident_blocks = 0; points = 0; chains = 0 })
tune_launch_configuration cuda incremental = occupancy_launch cuda incremental
tune_launch_configuration cuda batched = occupancy_launch cuda batched
tune_launch_configuration cuda chained8 = ok (record {
  threads = 64;
  resident_blocks = cuda.multiprocessors * 4;
  points = 8;
  chains = cuda.multiprocessors * 4 * 64 * 8;
})
tune_launch_configuration cuda chained16 = ok (record {
  threads = 64;
  resident_blocks = cuda.multiprocessors * 4;
  points = 16;
  chains = cuda.multiprocessors * 4 * 64 * 16;
})

-- The scalar as 64 hexadecimal digits, and the bytes of its public key.
unfoldable pub public_key_of_scalar : Library → ℕ → Result (List ℕ)
public_key_of_scalar lib scalar = do
  compressed ← compressed_public_key lib (bytes_to_hex (be_bytes 32 scalar))
  uncompressed ← uncompressed_public_key lib compressed
  host_public_key_bytes uncompressed

unfoldable pub host_chain_point_from_public_key : Library → ℕ → Result Point
host_chain_point_from_public_key lib scalar = do
  bytes ← public_key_of_scalar lib scalar
  ok (record {
    x = host_chain_field_from_big_endian bytes;
    y = host_chain_field_from_big_endian (drop 32 bytes);
    infinity = false;
  })

abbrev pub affine_from_bytes : List ℕ → AffinePoint
affine_from_bytes bytes = record {
  x = field_from_big_endian bytes;
  y = field_from_big_endian (drop 32 bytes);
  infinity = false;
}

-- The table of the batched mode, and the calls that copy it.
unfoldable pub copy_batch_table : Cuda → CudaSearchMode → Result (List AffinePoint)
copy_batch_table cuda reference = ok []
copy_batch_table cuda incremental = ok []
copy_batch_table cuda batched = do
  let host_batch_table = map (λ index. scalar_multiply_u64 (index + 1)) (0 ∷ 1 ∷ 2 ∷ 3 ∷ [])
  cuda.check (text "cudaMalloc(batch table)")
  cuda.check (text "cudaMemcpyAsync(batch table)")
  cuda.check (text "cudaStreamSynchronize(batch table)")
  ok host_batch_table
copy_batch_table cuda chained8 = ok []
copy_batch_table cuda chained16 = ok []

unfoldable pub chain_stride : Library → Cuda → CudaSearchMode → ℕ → Result Point
chain_stride lib cuda mode chains =
    if is_chained mode
    then (do
      point ← host_chain_point_from_public_key lib chains
      cuda.check (text "cudaMalloc(chain points)")
      ok point)
    else ok zero_point

-- The constructor: an exception leaves no session.
unfoldable pub make_session : Library → Cuda → CudaSearchMode → Result Impl
make_session lib cuda mode = do
  cuda.check (text "cudaSetDevice(session)")
  cuda.check (text "cudaGetDeviceProperties(session)")
  launch ← tune_launch_configuration cuda mode
  cuda.check (text "cudaStreamCreateWithFlags(search)")
  cuda.check (text "cudaEventCreate(search started)")
  cuda.check (text "cudaEventCreate(search completed)")
  cuda.check (text "cudaMalloc(search winner)")
  cuda.check (text "cudaMallocHost(search winner)")
  table ← copy_batch_table cuda mode
  stride ← chain_stride lib cuda mode launch.chains
  ok (record {
    mode = mode;
    launch = launch;
    batch_table = table;
    chain_points = replicate launch.chains zero_point;
    chain_stride_point = stride;
    chain_state_valid = false;
    chain_public_key = [];
    chain_next_start = [];
    cached_stride = none;
  })
