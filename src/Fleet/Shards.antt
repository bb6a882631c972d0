-- ===== src/Fleet/Shards.antt =====
-- The division of the range in `search_cuda_all` of native/src/cuda_runtime.cu.
use native.Mathlib.Nat.{div-add-mod', mod-lt}
use tron_wallet_searcher.Common.{
  ℕ, zero, suc, ◌+◌, ◌*◌, ◌/◌, ◌%◌, ◌^◌, ◌≤◌, ◌<◌, ◌≡◌, refl, ap, ◌∙◌, List, [], ◌∷◌, ltb, leb,
  ◌||◌, ◌==◌, false, if◌then◌else◌, ok, err, arith,
}
use tron_wallet_searcher.OpenSsl.{Library, IsDocumented}
use tron_wallet_searcher.Scalars.{add_to_offset, past_order}
use tron_wallet_searcher.Scalars.Numerals.{Numeral, scalar_text}
use tron_wallet_searcher.Scalars.Offsets.{add_to_offset-text}
use tron_wallet_searcher.SearchCpu.{SearchRequest}
use tron_wallet_searcher.Fleet.{used_devices, shard_count, returned, add_shard, make_shards}

-- The shards follow each other from one offset to another, and none is empty.
unfoldable pub Covers : ℕ → ℕ → List SearchRequest → Type 0
Covers from to [] = from ≡ to
Covers from to (shard ∷ shards) =
    (shard.range_start ≡ scalar_text from)
    × (1 ≤ shard.range_count)
    × Covers (from + shard.range_count) to shards

in_use :
    (count available : ℕ)
    → 1 ≤ count
    → 1 ≤ available
    → (1 ≤ used_devices count available) × (used_devices count available ≤ count)
unfolding used_devices
in_use count available some_left some_device = ground arith

-- Every device has some candidates.
share-positive :
    (count used device : ℕ) → 1 ≤ used → used ≤ count → 1 ≤ shard_count count used device
unfolding shard_count
share-positive count used device some_used enough =
    let below = mod-lt count some_used in
    let split = div-add-mod' count used in ground (arith, below, split)

-- The candidates of so many devices from one on.
unfoldable total : ℕ → ℕ → ℕ → ℕ → ℕ
total count used zero device = 0
total count used (suc rounds) device =
    shard_count count used device + total count used rounds (device + 1)

total_closed :
    (count used rounds device : ℕ)
    → total count used rounds device + (if ltb device (count % used) then device else count % used)
      ≡ rounds * (count / used)
        + (if ltb (device + rounds) (count % used) then device + rounds else count % used)
unfolding total shard_count
total_closed count used zero device = ground arith
total_closed count used (suc rounds) device =
    ground (arith, total_closed count used rounds (device + 1))

total_whole : (count used : ℕ) → 1 ≤ used → total count used used 0 ≡ count
total_whole count used some_used =
    let below = mod-lt count some_used in
    let split = div-add-mod' count used in
    ground (arith, total_closed count used used 0, below, split)

-- A round whose offset is printed.
shard_added :
    (lib : Library) (request : SearchRequest) (used rounds device rel : ℕ) (range_start : List ℕ)
    (shards : List SearchRequest)
    → add_to_offset lib request.range_start rel ≡ ok range_start
    → make_shards lib request used rounds
        (device + 1)
        (rel + shard_count request.range_count used device)
      ≡ returned shards
    → make_shards lib request used (suc rounds) device rel
      ≡ returned (
          record request {
            range_start = range_start;
            range_count = shard_count request.range_count used device;
          }
          ∷ shards)
unfolding make_shards add_shard
shard_added lib request used rounds device rel range_start shards moved makes =
    rw (make_shards, moved, makes) refl

make_shards-Covers :
    (lib : Library) (request : SearchRequest) (n start used : ℕ)
    → IsDocumented lib n
    → Numeral request.range_start start
    → 1 ≤ start
    → request.range_count < 2 ^ 64
    → start + request.range_count ≤ n
    → 1 ≤ used
    → used ≤ request.range_count
    → (rounds device relative_start : ℕ)
    → relative_start + total request.range_count used rounds device ≡ request.range_count
    → (shards : List SearchRequest) × (make_shards lib request used rounds device relative_start
        ≡ returned shards)
      × Covers (start + relative_start) (start + request.range_count) shards
unfolding make_shards Covers total
make_shards-Covers lib request n start used d spelled low word fits some_used enough zero device rel
      e =
    ([], refl, omega arith)
make_shards-Covers lib request n start used d spelled low word fits some_used enough (suc rounds)
      device rel e =
    let count = shard_count request.range_count used device in
    let positive = share-positive request.range_count used device some_used enough in
    let inside : ((start + rel == 0) || leb n (start + rel)) ≡ false = ground arith in
    let moved : add_to_offset lib request.range_start rel ≡ ok (scalar_text (start + rel)) =
      add_to_offset-text lib n start rel request.range_start d spelled (omega arith)
      ∙ ap (λ b. if b then err past_order else ok (scalar_text (start + rel))) inside in
    let (shards, makes, covers) =
      make_shards-Covers lib request n start used d spelled low word fits some_used enough rounds
        (device + 1) (rel + count) (omega arith) in
    let e' : start + rel + count ≡ start + (rel + count) = omega arith in
    (
      record request { range_start = scalar_text (start + rel); range_count = count } ∷ shards,
      shard_added lib request used rounds device rel _ shards moved makes,
      (refl, positive, rw e' covers),
    )

-- A range below the order, with a start that is written with digits, decimal or hexadecimal, is
-- divided among the devices in use without an exception: the shards follow
-- each other from its first offset to its last, and none is empty.
pub make_shards_whole :
    (lib : Library) (request : SearchRequest) (n start available : ℕ)
    → IsDocumented lib n
    → Numeral request.range_start start
    → 1 ≤ start
    → 1 ≤ request.range_count
    → request.range_count < 2 ^ 64
    → start + request.range_count ≤ n
    → 1 ≤ available
    → (shards : List SearchRequest) × (make_shards lib request
          (used_devices request.range_count available)
          (used_devices request.range_count available)
          0
          0
        ≡ returned shards)
      × Covers start (start + request.range_count) shards
make_shards_whole lib request n start available d spelled low some_left word fits some_device =
    let (some_used, enough) = in_use request.range_count available some_left some_device in
    let used = used_devices request.range_count available in
    let (shards, makes, covers) =
      make_shards-Covers lib request n start used d spelled low word fits some_used enough used 0 0
        (omega (arith, total_whole request.range_count used some_used)) in
    let e : start + 0 ≡ start = omega arith in (shards, makes, rw e at covers)
