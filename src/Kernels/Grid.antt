-- ===== src/Kernels/Grid.antt =====
-- The kernels of native/src/cuda_runtime.cu, one thread of each: a thread gets its index in the
-- grid, and returns the indices that it hands to `atomicMin`, in order, and the points it stores.
use tron_wallet_searcher.Common.{
  ℕ, zero, suc, ◌+◌, ◌-◌, ◌*◌, ◌/◌, ◌^◌, List, [], ◌∷◌, ◌++◌, map, leb, ltb, if◌then◌else◌, length,
  get_or, set, take, drop, replicate, for_range, Option, none, some,
}
use tron_wallet_searcher.Common.Words.{u64}
use tron_wallet_searcher.Pattern.{device_pattern_matches}
use tron_wallet_searcher.Chain.Curve.{Point, zero_point, chord, field_inverse_batch}
use tron_wallet_searcher.Chain.Curve as Wide
use tron_wallet_searcher.Chain as Fields
use tron_wallet_searcher.Secp as Small
use tron_wallet_searcher.Secp.Curve.{
  AffinePoint, scalar_multiply_u64, point_add, point_to_public_key, from_legacy_point,
  batch_prefixes, negative_table, point_add_with_inverse, field_inverse,
}
use tron_wallet_searcher.Kernels.{
  DevicePattern, device_tron_address_from_public_key, evaluate_search_candidate,
  evaluate_chain_candidate,
}

-- `winning_index`, after the calls of `atomicMin` that the threads made in some order.
unfoldable pub atomic_min : ℕ → List ℕ → ℕ
atomic_min winning_index [] = winning_index
atomic_min winning_index (index ∷ rest) =
    atomic_min (if ltb index winning_index then index else winning_index) rest

-- The text for a test vector, where the thread has one.
unfoldable pub secp256k1_vector_kernel : List ℕ → ℕ → Option (List ℕ)
secp256k1_vector_kernel scalars index =
    if leb (length scalars) index
    then none
    else (let point = scalar_multiply_u64 (get_or scalars index 0) in
        if point.infinity
        then some (0 ∷ [])
        else some (device_tron_address_from_public_key (point_to_public_key point)))

-- The candidate of an index, without the prefilter.
unfoldable pub evaluate_unfiltered : AffinePoint → ℕ → DevicePattern → List ℕ
evaluate_unfiltered candidate index pattern =
    if candidate.infinity
    then []
    else (let address = device_tron_address_from_public_key (point_to_public_key candidate) in
        if device_pattern_matches address pattern.prefix pattern.suffix then index ∷ [] else [])

unfoldable pub functional_search_kernel : AffinePoint → DevicePattern → ℕ → ℕ → List ℕ
functional_search_kernel range_start_point pattern range_count index =
    if leb range_count index
    then []
    else evaluate_unfiltered (point_add range_start_point (scalar_multiply_u64 index)) index pattern

-- The loop over the indices of a thread. The fuel is the length of the range, which is enough.
unfoldable pub incremental_loop : ℕ → AffinePoint → DevicePattern → ℕ → ℕ → ℕ → AffinePoint → List ℕ
incremental_loop zero stride_point pattern range_count grid_stride index candidate = []
incremental_loop (suc fuel) stride_point pattern range_count grid_stride index candidate =
    let next =
      if ltb (u64 (index + grid_stride)) range_count
      then point_add candidate stride_point
      else candidate in
    let rest =
      incremental_loop fuel stride_point pattern range_count grid_stride (u64 (index + grid_stride))
        next in
    if leb range_count index then [] else evaluate_unfiltered candidate index pattern ++ rest

unfoldable pub incremental_search_kernel :
    AffinePoint → AffinePoint → DevicePattern → ℕ → ℕ → ℕ → List ℕ
incremental_search_kernel range_start_point grid_stride_point pattern range_count grid_size
      thread_index =
    if leb range_count thread_index
    then []
    else (let candidate = point_add range_start_point (scalar_multiply_u64 thread_index) in
        incremental_loop range_count grid_stride_point pattern range_count grid_size thread_index
          candidate)

-- The points of the thread's chains, written to the array.
unfoldable pub chained_initialize_kernel : ℕ → AffinePoint → ℕ → ℕ → List Point → List Point
chained_initialize_kernel points_per_thread range_start_point chain_count thread_index points =
    for_range points_per_thread 0
      (λ point_index stored.
        let chain = u64 (u64 (thread_index * points_per_thread) + point_index) in
        if leb chain_count chain
        then stored
        else (let relative = scalar_multiply_u64 chain in
            set stored chain (from_legacy_point (point_add range_start_point relative))))
      points

-- The candidates of one step, the chains from `chain` on.
unfoldable pub evaluate_step : List Point → ℕ → DevicePattern → ℕ → ℕ → ℕ → List ℕ
evaluate_step [] chain pattern range_count chain_count step = []
evaluate_step (point ∷ points) chain pattern range_count chain_count step =
    let relative_index = u64 (step * chain_count + chain) in
    let rest = evaluate_step points (chain + 1) pattern range_count chain_count step in
    if ltb relative_index range_count
    then evaluate_chain_candidate point relative_index pattern ++ rest
    else rest

unfoldable pub delta_x : Point → Point → List ℕ
delta_x stride_point point =
    if point.infinity then replicate 4 0 else Fields.field_subtract stride_point.x point.x

-- The point of a chain, one stride on, with the inverse that the batch has for it.
unfoldable pub advance_point : Point → Point → List ℕ → Point
advance_point stride_point point inverse =
    if point.infinity
    then stride_point
    else if Fields.field_is_zero inverse
    then Wide.point_add point stride_point
    else chord point stride_point inverse

unfoldable pub advance_points : Point → List Point → List (List ℕ) → List Point
advance_points stride_point [] inverses = []
advance_points stride_point (point ∷ points) [] = []
advance_points stride_point (point ∷ points) (inverse ∷ inverses) =
    advance_point stride_point point inverse ∷ advance_points stride_point points inverses

unfoldable pub advance_chains : Point → List Point → List Point
advance_chains stride_point points =
    advance_points stride_point points (field_inverse_batch (map (delta_x stride_point) points))

-- `for (step = 0; step < steps; ++step)`: the points at the end, and the indices handed over.
unfoldable pub chained_steps :
    ℕ → ℕ → Point → DevicePattern → ℕ → ℕ → ℕ → List Point → List Point × List ℕ
chained_steps zero step stride_point pattern range_count chain_count first_chain points =
    (points, [])
chained_steps (suc steps) step stride_point pattern range_count chain_count first_chain points =
    let found = evaluate_step points first_chain pattern range_count chain_count step in
    let (reached, rest) =
      chained_steps steps (step + 1) stride_point pattern range_count chain_count first_chain
        (advance_chains stride_point points) in
    (reached, found ++ rest)

unfoldable pub store_points : ℕ → List Point → List Point → List Point
store_points place [] global_points = global_points
store_points place (point ∷ points) global_points =
    store_points (place + 1) points (set global_points place point)

unfoldable pub chained_search_kernel :
    ℕ → List Point → Point → DevicePattern → ℕ → ℕ → ℕ → ℕ → List Point × List ℕ
chained_search_kernel points_per_thread global_points stride_point pattern range_count chain_count
      steps thread_index =
    let first_chain = u64 (thread_index * points_per_thread) in
    if leb chain_count first_chain
    then (global_points, [])
    else (let points = take points_per_thread (drop first_chain global_points) in
        let (reached, found) =
          chained_steps steps 0 stride_point pattern range_count chain_count first_chain points in
        (store_points first_chain reached global_points, found))

-- The candidates at a distance on both sides of the center, from the last entry of the table down,
-- and the inverse of the product before them.
unfoldable pub evaluate_sides :
    AffinePoint
    → ℕ
    → DevicePattern
    → ℕ
    → ℕ
    → List AffinePoint
    → List (List ℕ)
    → List ℕ
    → List ℕ × List ℕ
evaluate_sides center center_index pattern range_count distance [] prefixes inverse_product =
    ([], inverse_product)
evaluate_sides center center_index pattern range_count distance (entry ∷ table) [] inverse_product =
    ([], inverse_product)
evaluate_sides center center_index pattern range_count distance (entry ∷ table)
      (previous_product ∷ prefixes) inverse_product =
    let (found, reached) =
      evaluate_sides center center_index pattern range_count (distance + 1) table prefixes
        inverse_product in
    let negative_index = u64 (center_index + 2 ^ 64 - distance) in
    let positive_index = u64 (center_index + distance) in
    let denominator = Small.field_subtract entry.x center.x in
    let at = λ (index : ℕ) (candidate : AffinePoint).
      if ltb index range_count then evaluate_search_candidate candidate index pattern else [] in
    let denominator_inverse = Small.field_multiply reached previous_product in
    if Small.field_is_zero denominator
    then (
      found
          ++ at negative_index (point_add center (negative_table entry))
          ++ at positive_index (point_add center entry),
      reached,
    )
    else (
      found
          ++ at negative_index
              (point_add_with_inverse center (negative_table entry) denominator_inverse)
          ++ at positive_index (point_add_with_inverse center entry denominator_inverse),
      Small.field_multiply reached denominator,
    )

-- One batch: the center, and both sides of it.
unfoldable pub evaluate_batch : AffinePoint → ℕ → DevicePattern → ℕ → List AffinePoint → List ℕ
evaluate_batch center center_index pattern range_count batch_table =
    let (prefixes, product) = batch_prefixes center batch_table (Small.field_from_small 1) in
    (if ltb center_index range_count
      then evaluate_search_candidate center center_index pattern
      else [])
    ++ (evaluate_sides center center_index pattern range_count 1 batch_table
        (Small.field_from_small 1 ∷ prefixes) (field_inverse product)).0

abbrev pub batch_radius : ℕ
batch_radius = 4

abbrev pub batch_span : ℕ
batch_span = 9

-- The loop over the batches of a lane. The fuel is the number of batches, which is enough.
unfoldable pub batch_loop :
    ℕ → AffinePoint → List AffinePoint → DevicePattern → ℕ → ℕ → ℕ → ℕ → ℕ → AffinePoint → List ℕ
batch_loop zero lane_stride_point batch_table pattern range_count lane_count batch_count batch_index
      center_index center =
    []
batch_loop (suc fuel) lane_stride_point batch_table pattern range_count lane_count batch_count
      batch_index center_index center =
    let next_batch = u64 (batch_index + lane_count) in
    let next = if ltb next_batch batch_count then point_add center lane_stride_point else center in
    let rest =
      batch_loop fuel lane_stride_point batch_table pattern range_count lane_count batch_count
        next_batch (u64 (center_index + u64 (lane_count * batch_span))) next in
    if ltb batch_index batch_count
    then evaluate_batch center center_index pattern range_count batch_table ++ rest
    else []

unfoldable pub batched_search_kernel :
    AffinePoint → AffinePoint → List AffinePoint → DevicePattern → ℕ → ℕ → ℕ → List ℕ
batched_search_kernel range_start_point lane_stride_point batch_table pattern range_count lane_count
      lane =
    let batch_count = u64 (range_count + batch_span - 1) / batch_span in
    if leb batch_count lane
    then []
    else (let center_index = u64 (u64 (lane * batch_span) + batch_radius) in
        let center = point_add range_start_point (scalar_multiply_u64 center_index) in
        batch_loop batch_count lane_stride_point batch_table pattern range_count lane_count
          batch_count lane center_index center)
