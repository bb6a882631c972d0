-- ===== src/Kernels/Rounds.antt =====
-- The loops of the incremental and of the batched search kernel, round by round.
-- native/src/cuda_runtime.cu.
use tron_wallet_searcher.Common.{
  ℕ, zero, suc, ◌+◌, ◌-◌, ◌*◌, ◌/◌, ◌^◌, ◌≤◌, ◌<◌, ◌≡◌, refl, ap, ◌∙◌, List, [], ◌++◌, Bool, true,
  false, leb, ltb, if◌then◌else◌, arith,
}
use tron_wallet_searcher.Common.Words.{u64}
use tron_wallet_searcher.Secp.Curve.{AffinePoint, point_add, scalar_multiply_u64}
use tron_wallet_searcher.Kernels.{DevicePattern}
use tron_wallet_searcher.Kernels.Grid.{
  evaluate_unfiltered, incremental_loop, incremental_search_kernel, evaluate_batch, batch_span,
  batch_radius, batch_loop, batched_search_kernel,
}

-- The rounds of a thread: each candidate is one stride past the one before, and so is its index.
unfoldable pub rounds : ℕ → AffinePoint → DevicePattern → ℕ → ℕ → AffinePoint → List ℕ
rounds zero stride_point pattern grid_stride index candidate = []
rounds (suc left) stride_point pattern grid_stride index candidate =
    evaluate_unfiltered candidate index pattern
    ++ rounds left stride_point pattern grid_stride (index + grid_stride)
        (point_add candidate stride_point)

-- What the index and the number of rounds left have to do with the range.
abbrev pub Reaches : ℕ → ℕ → ℕ → ℕ → Type 0
Reaches left range_count grid_stride index =
    (range_count ≤ index + left * grid_stride)
    × (index + left * grid_stride < range_count + grid_stride)

-- The last round leaves the candidate as it is, and no round reads it then.
rounds-last :
    (left : ℕ) (stride_point : AffinePoint) (pattern : DevicePattern)
    (range_count grid_stride index : ℕ) (candidate : AffinePoint)
    → Reaches left range_count grid_stride index
    → rounds left stride_point pattern grid_stride index
        (if ltb index range_count then point_add candidate stride_point else candidate)
      ≡ rounds left stride_point pattern grid_stride index (point_add candidate stride_point)
unfolding rounds
rounds-last zero stride_point pattern range_count grid_stride index candidate reaches = refl
rounds-last (suc left) stride_point pattern range_count grid_stride index candidate reaches =
    let inside : ltb index range_count ≡ true = ground arith in
    ap
      (λ (t : Bool).
        rounds (suc left) stride_point pattern grid_stride index
          (if t then point_add candidate stride_point else candidate))
      inside

incremental_loop-rounds :
    (fuel left : ℕ) (stride_point : AffinePoint) (pattern : DevicePattern)
    (range_count grid_stride index : ℕ) (candidate : AffinePoint)
    → left ≤ fuel
    → range_count + grid_stride ≤ 2 ^ 64
    → Reaches left range_count grid_stride index
    → incremental_loop fuel stride_point pattern range_count grid_stride index candidate
      ≡ rounds left stride_point pattern grid_stride index candidate
unfolding incremental_loop rounds
incremental_loop-rounds zero zero stride_point pattern range_count grid_stride index candidate
      enough fits reaches =
    refl
incremental_loop-rounds zero (suc left) stride_point pattern range_count grid_stride index candidate
      enough fits reaches =
    absurd (omega arith)
incremental_loop-rounds (suc fuel) zero stride_point pattern range_count grid_stride index candidate
      enough fits reaches =
    let past : leb range_count index ≡ true = ground arith in rw (past) refl
incremental_loop-rounds (suc fuel) (suc left) stride_point pattern range_count grid_stride index
      candidate enough fits reaches =
    let inside : leb range_count index ≡ false = ground arith in
    let onward : Reaches left range_count grid_stride (index + grid_stride) =
      (omega arith, omega arith) in
    let word : u64 (index + grid_stride) ≡ index + grid_stride = omega arith in
    rw (inside, word)
      (ap (λ rest. evaluate_unfiltered candidate index pattern ++ rest)
        (incremental_loop-rounds fuel left stride_point pattern range_count grid_stride
            (index + grid_stride) _ (omega arith) fits onward
          ∙ rounds-last left stride_point pattern range_count grid_stride (index + grid_stride)
              candidate onward))

factor-≤ : (a b : ℕ) → 1 ≤ b → a ≤ a * b
factor-≤ zero b some_b = omega arith
factor-≤ (suc a) b some_b = let rest = factor-≤ a b some_b in omega arith

rounds_fit :
    (left range_count grid_stride index : ℕ)
    → 1 ≤ grid_stride
    → Reaches left range_count grid_stride index
    → left ≤ range_count
rounds_fit zero range_count grid_stride index some_grid reaches = omega arith
rounds_fit (suc left) range_count grid_stride index some_grid reaches =
    let grows : left ≤ left * grid_stride = factor-≤ left grid_stride some_grid in omega arith

-- On a grid of at least one thread, with the range and the grid together at most 2^64, the kernel
-- hands over what its rounds do: it tries the candidates of the indices that start at the thread's
-- and rise by the grid, each one stride past the one before, up to the last index of the range. The
-- loop's fuel is enough.
pub incremental_search_kernel-rounds :
    (left : ℕ) (range_start_point stride_point : AffinePoint) (pattern : DevicePattern)
    (range_count grid_size thread_index : ℕ)
    → 1 ≤ grid_size
    → range_count + grid_size ≤ 2 ^ 64
    → Reaches left range_count grid_size thread_index
    → incremental_search_kernel range_start_point stride_point pattern range_count grid_size
        thread_index
      ≡ rounds left stride_point pattern grid_size thread_index
          (point_add range_start_point (scalar_multiply_u64 thread_index))
unfolding incremental_search_kernel rounds
incremental_search_kernel-rounds zero range_start_point stride_point pattern range_count grid_size
      thread_index some_grid fits reaches =
    let past : leb range_count thread_index ≡ true = ground arith in rw (past) refl
incremental_search_kernel-rounds (suc left) range_start_point stride_point pattern range_count
      grid_size thread_index some_grid fits reaches =
    let inside : leb range_count thread_index ≡ false = ground arith in
    rw (inside) (
      incremental_loop-rounds range_count (suc left) stride_point pattern range_count grid_size
        thread_index _ (rounds_fit (suc left) range_count grid_size thread_index some_grid reaches)
        fits reaches)

-- The rounds of a lane: each batch is as many batches past the one before as there are lanes.
unfoldable pub batch_rounds :
    ℕ → AffinePoint → List AffinePoint → DevicePattern → ℕ → ℕ → ℕ → AffinePoint → List ℕ
batch_rounds zero stride_point table pattern range_count lanes batch center = []
batch_rounds (suc left) stride_point table pattern range_count lanes batch center =
    evaluate_batch center (batch * batch_span + batch_radius) pattern range_count table
    ++ batch_rounds left stride_point table pattern range_count lanes (batch + lanes)
        (point_add center stride_point)

batch_rounds-last :
    (left : ℕ) (stride_point : AffinePoint) (table : List AffinePoint) (pattern : DevicePattern)
    (range_count batches lanes batch : ℕ) (center : AffinePoint)
    → Reaches left batches lanes batch
    → batch_rounds left stride_point table pattern range_count lanes batch
        (if ltb batch batches then point_add center stride_point else center)
      ≡ batch_rounds left stride_point table pattern range_count lanes batch
          (point_add center stride_point)
unfolding batch_rounds
batch_rounds-last zero stride_point table pattern range_count batches lanes batch center reaches =
    refl
batch_rounds-last (suc left) stride_point table pattern range_count batches lanes batch center
      reaches =
    let inside : ltb batch batches ≡ true = ground arith in
    ap
      (λ (t : Bool).
        batch_rounds (suc left) stride_point table pattern range_count lanes batch
          (if t then point_add center stride_point else center))
      inside

batch_loop-rounds :
    (fuel left : ℕ) (stride_point : AffinePoint) (table : List AffinePoint)
    (pattern : DevicePattern) (range_count batches lanes batch : ℕ) (center : AffinePoint)
    → left ≤ fuel
    → (batches + lanes) * batch_span + batch_radius ≤ 2 ^ 64
    → Reaches left batches lanes batch
    → batch_loop fuel stride_point table pattern range_count lanes batches batch
        (batch * batch_span + batch_radius)
        center
      ≡ batch_rounds left stride_point table pattern range_count lanes batch center
unfolding batch_loop batch_rounds
batch_loop-rounds zero zero stride_point table pattern range_count batches lanes batch center enough
      fits reaches =
    refl
batch_loop-rounds zero (suc left) stride_point table pattern range_count batches lanes batch center
      enough fits reaches =
    absurd (omega arith)
batch_loop-rounds (suc fuel) zero stride_point table pattern range_count batches lanes batch center
      enough fits reaches =
    let past : ltb batch batches ≡ false = ground arith in rw (past) refl
batch_loop-rounds (suc fuel) (suc left) stride_point table pattern range_count batches lanes batch
      center enough fits reaches =
    let inside : ltb batch batches ≡ true = ground arith in
    let onward : Reaches left batches lanes (batch + lanes) = (omega arith, omega arith) in
    let word : u64 (batch + lanes) ≡ batch + lanes = omega arith in
    let next : u64 (batch * batch_span + batch_radius + u64 (lanes * batch_span))
        ≡ (batch + lanes) * batch_span + batch_radius =
      omega arith in
    rw (inside, word, next)
      (ap
        (λ rest.
          evaluate_batch center (batch * batch_span + batch_radius) pattern range_count table
          ++ rest)
        (batch_loop-rounds fuel left stride_point table pattern range_count batches lanes
            (batch + lanes) _ (omega arith) fits onward
          ∙ batch_rounds-last left stride_point table pattern range_count batches lanes
              (batch + lanes) center onward))

-- On a grid of at least one lane, with the range and nine times the lanes together at most
-- 2^64 - 16, the kernel hands over what its rounds do: it tries the batches of nine candidates
-- that start at the lane's and rise by the number of lanes, up to the last batch of the range, each
-- around its centre, which is one stride past the one before. The loop's fuel is enough.
pub batched_search_kernel-rounds :
    (left : ℕ) (range_start_point stride_point : AffinePoint) (table : List AffinePoint)
    (pattern : DevicePattern) (range_count lanes lane : ℕ)
    → 1 ≤ lanes
    → range_count + lanes * batch_span + 16 ≤ 2 ^ 64
    → Reaches left ((range_count + batch_span - 1) / batch_span) lanes lane
    → batched_search_kernel range_start_point stride_point table pattern range_count lanes lane
      ≡ batch_rounds left stride_point table pattern range_count lanes lane
          (point_add range_start_point (scalar_multiply_u64 (lane * batch_span + batch_radius)))
unfolding batched_search_kernel batch_rounds
batched_search_kernel-rounds zero range_start_point stride_point table pattern range_count lanes
      lane some_lanes fits reaches =
    let word : u64 (range_count + batch_span - 1) ≡ range_count + batch_span - 1 = omega arith in
    let past : leb ((range_count + batch_span - 1) / batch_span) lane ≡ true = ground arith in
    rw (word, past) refl
batched_search_kernel-rounds (suc left) range_start_point stride_point table pattern range_count
      lanes lane some_lanes fits reaches =
    let batches = (range_count + batch_span - 1) / batch_span in
    let word : u64 (range_count + batch_span - 1) ≡ range_count + batch_span - 1 = omega arith in
    let inside : leb batches lane ≡ false = ground arith in
    let room : (batches + lanes) * batch_span + batch_radius ≤ 2 ^ 64 = omega arith in
    let centre : u64 (u64 (lane * batch_span) + batch_radius) ≡ lane * batch_span + batch_radius =
      omega arith in
    rw (word, inside, centre)
      (batch_loop-rounds batches (suc left) stride_point table pattern range_count batches lanes
        lane _ (rounds_fit (suc left) batches lanes lane some_lanes reaches) room reaches)
