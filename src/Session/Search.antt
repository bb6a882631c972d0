-- ===== src/Session/Search.antt =====
-- `CudaSearchSession::Impl::search` and what calls it, of native/src/cuda_runtime.cu. The session
-- outlives an exception, so that each step gives its outcome and the session behind it.
use tron_wallet_searcher.Common.{
  ℕ, ◌+◌, ◌-◌, ◌*◌, ◌/◌, ◌%◌, ◌^◌, List, [], ◌++◌, Bool, true, false, not, ◌==◌, ◌&&◌, ◌||◌, ltb,
  if◌then◌else◌, Option, none, some, Result, ok, err, for_range, Exception, invalid_argument,
  runtime_error, logic_error, throw_if, text, text_eq,
}
use tron_wallet_searcher.Hex.{host_public_key_bytes}
use tron_wallet_searcher.OpenSsl.{Library}
use tron_wallet_searcher.Scalars.{add_to_offset}
use tron_wallet_searcher.Address.{derive_offset_public_key}
use tron_wallet_searcher.Pattern.{validate_pattern}
use tron_wallet_searcher.PrefixFilter.{populate_prefix_intervals}
use tron_wallet_searcher.SearchCpu.{SearchRequest, SearchResult, search_cpu, empty_range}
use tron_wallet_searcher.Chain.Curve.{Point}
use tron_wallet_searcher.Secp.Curve.{AffinePoint, nowhere}
use tron_wallet_searcher.Kernels.{DevicePattern}
use tron_wallet_searcher.Kernels.Grid.{
  atomic_min, functional_search_kernel, incremental_search_kernel, batched_search_kernel,
  chained_initialize_kernel, chained_search_kernel, batch_span,
}
use tron_wallet_searcher.Session.{
  CudaSearchMode, reference, incremental, batched, chained8, chained16, Cuda, Impl, is_chained,
  public_key_of_scalar, affine_from_bytes, make_session,
}

abbrev pub Stateful : Type 0 → Type 0
Stateful A = Impl → Result A × Impl

infixl 5 ◌>>=◌ ◌>>◌
unfoldable pub and_then : {A B : Type 0} → Result A × Impl → (A → Stateful B) → Result B × Impl
and_then (err thrown, session) next = (err thrown, session)
and_then (ok value, session) next = next value session

abbrev pub ◌>>=◌ : {A B : Type 0} → Stateful A → (A → Stateful B) → Stateful B
(step >>= next) session = and_then (step session) next

abbrev pub ◌>>◌ : {A B : Type 0} → Stateful A → Stateful B → Stateful B
(step >> next) session = and_then (step session) (λ done. next)

-- A step that leaves the session as it is.
abbrev pub lift : {A : Type 0} → Result A → Stateful A
lift outcome session = (outcome, session)

-- The checks, the start point and the pattern: they read no field of the session.
unfoldable pub prepare : Library → SearchRequest → Stateful (AffinePoint × DevicePattern)
prepare lib request = do
  lift (validate_pattern request.pattern request.prefix request.suffix)
  lift (throw_if (request.range_count == 0) empty_range)
  lift (
      throw_if (ltb (2 ^ 26) request.range_count) (
        invalid_argument
          (text "The validation CUDA search is limited to 67108864 candidates per launch.")))
  _ ← lift (
      if ltb 1 request.range_count
      then add_to_offset lib request.range_start (request.range_count - 1)
      else ok [])
  key ← lift (derive_offset_public_key lib request.public_key_hex request.range_start)
  bytes ← lift (host_public_key_bytes key)
  rows ← lift (populate_prefix_intervals request.prefix)
  lift (
      ok (
        affine_from_bytes bytes,
        record { prefix = request.prefix; suffix = request.suffix; rows = rows },
      ))

unfoldable pub fresh_stride : Library → ℕ → Stateful AffinePoint
fresh_stride lib grid_stride session =
    and_then (public_key_of_scalar lib grid_stride, session)
      (λ bytes kept. (
        ok (affine_from_bytes bytes),
        record kept { cached_stride = some (grid_stride, affine_from_bytes bytes) },
      ))

-- The point of a stride, kept from one search to the next.
unfoldable pub stride_point : Library → ℕ → Stateful AffinePoint
stride_point lib grid_stride session = elim session.cached_stride [
  | none ↦ fresh_stride lib grid_stride session
  | some (cached, point) ↦
      if grid_stride == cached then (ok point, session) else fresh_stride lib grid_stride session
]

abbrev pub threads_of : Impl → ℕ
threads_of session = session.launch.threads

-- The blocks of the modes that cover the range once.
unfoldable pub blocks_for : SearchRequest → Impl → ℕ
blocks_for request session = elim session.mode [
  | reference ↦ (request.range_count + threads_of session - 1) / threads_of session
  | incremental ↦
      let blocks = (request.range_count + threads_of session - 1) / threads_of session in
      if ltb session.launch.resident_blocks blocks then session.launch.resident_blocks else blocks
  | batched ↦
      let batch_count = (request.range_count + batch_span - 1) / batch_span in
      let blocks = (batch_count + threads_of session - 1) / threads_of session in
      if ltb session.launch.resident_blocks blocks then session.launch.resident_blocks else blocks
  | chained8 ↦ session.launch.resident_blocks
  | chained16 ↦ session.launch.resident_blocks
]

-- Whether the chains of the last search go on where this one starts.
unfoldable pub must_initialize : SearchRequest → List ℕ → Impl → Bool
must_initialize request normalized_start session =
    is_chained session.mode
    && (not session.chain_state_valid
        || not (text_eq session.chain_public_key request.public_key_hex)
        || not (text_eq session.chain_next_start normalized_start))

-- From here on the chains are not valid until the results are there.
unfoldable pub enter_search : SearchRequest → List ℕ → Stateful Bool
enter_search request normalized_start session = (
  ok (must_initialize request normalized_start session),
  (if is_chained session.mode then record session { chain_state_valid = false } else session),
)

-- The stride of the grid, in the modes whose threads walk by it.
unfoldable pub plan_stride : CudaSearchMode → Library → SearchRequest → Stateful AffinePoint
plan_stride reference lib request session = (ok nowhere, session)
plan_stride incremental lib request session =
    stride_point lib (blocks_for request session * threads_of session) session
plan_stride batched lib request session =
    stride_point lib (blocks_for request session * threads_of session * batch_span) session
plan_stride chained8 lib request session = (ok nowhere, session)
plan_stride chained16 lib request session = (ok nowhere, session)

-- The kernel's template argument.
abbrev pub points_per_thread : Impl → ℕ
points_per_thread session = if session.launch.points == 16 then 16 else 8

abbrev pub grid_of : SearchRequest → Impl → ℕ
grid_of request session = blocks_for request session * threads_of session

abbrev pub chain_steps : SearchRequest → Impl → ℕ
chain_steps request session =
    (request.range_count + session.launch.chains - 1) / session.launch.chains

-- The launch of `chained_initialize_kernel`.
unfoldable pub initialized_points : SearchRequest → AffinePoint → Impl → List Point
initialized_points request start_point session =
    for_range (grid_of request session) 0
      (λ thread points.
        chained_initialize_kernel (points_per_thread session) start_point session.launch.chains
          thread points)
      session.chain_points

unfoldable pub initialize_chains : Cuda → SearchRequest → AffinePoint → Bool → Stateful (Unit {0})
initialize_chains cuda request start_point initialize session =
    if initialize
    then (
      cuda.check (text "chained_initialize_kernel launch"),
      record session { chain_points = initialized_points request start_point session },
    )
    else (ok tt, session)

-- The launch of `chained_search_kernel`: the points behind it, and the indices handed over.
unfoldable pub searched_points : SearchRequest → DevicePattern → Impl → List Point × List ℕ
searched_points request pattern session =
    for_range (grid_of request session) 0
      (λ thread state.
        let (points, found) =
          chained_search_kernel (points_per_thread session) state.0 session.chain_stride_point
            pattern request.range_count session.launch.chains (chain_steps request session)
            thread in
        (points, state.1 ++ found))
      (session.chain_points, [])

unfoldable pub search_chains : Cuda → SearchRequest → DevicePattern → Stateful (List ℕ)
search_chains cuda request pattern session =
    and_then
      (
        cuda.check (text "chained_search_kernel launch"),
        record session { chain_points = (searched_points request pattern session).0 },
      )
      (λ done searched. (ok (searched_points request pattern session).1, searched))

-- The indices that the threads of a grid hand over.
unfoldable pub run_grid : ℕ → (ℕ → List ℕ) → List ℕ
run_grid grid kernel = for_range grid 0 (λ thread found. found ++ kernel thread) []

-- The chained modes: the initialization, where it is needed, and the search.
unfoldable pub launch_chains :
    Cuda → SearchRequest → AffinePoint → DevicePattern → Bool → Stateful (List ℕ)
launch_chains cuda request start_point pattern initialize = do
  initialize_chains cuda request start_point initialize
  search_chains cuda request pattern

unfoldable pub launch_kernel :
    CudaSearchMode
    → Cuda
    → SearchRequest
    → AffinePoint
    → AffinePoint
    → DevicePattern
    → Bool
    → Stateful (List ℕ)
launch_kernel reference cuda request start_point grid_stride_point pattern initialize session =
    and_then (cuda.check (text "functional_search_kernel launch"), session)
      (λ done kept. (
        ok (
            run_grid (grid_of request session)
              (functional_search_kernel start_point pattern request.range_count)),
        kept,
      ))
launch_kernel incremental cuda request start_point grid_stride_point pattern initialize session =
    and_then (cuda.check (text "incremental_search_kernel launch"), session)
      (λ done kept. (
        ok (
            run_grid (grid_of request session) (
              incremental_search_kernel start_point grid_stride_point pattern request.range_count
                (grid_of request session))),
        kept,
      ))
launch_kernel batched cuda request start_point grid_stride_point pattern initialize session =
    and_then (cuda.check (text "batched_search_kernel launch"), session)
      (λ done kept. (
        ok (
            run_grid (grid_of request session) (
              batched_search_kernel start_point grid_stride_point session.batch_table pattern
                request.range_count (grid_of request session))),
        kept,
      ))
launch_kernel chained8 cuda request start_point grid_stride_point pattern initialize session =
    launch_chains cuda request start_point pattern initialize session
launch_kernel chained16 cuda request start_point grid_stride_point pattern initialize session =
    launch_chains cuda request start_point pattern initialize session

-- The chains are valid again when the range ends with a whole step.
unfoldable pub commit_chains : Library → SearchRequest → List ℕ → Stateful (Unit {0})
commit_chains lib request normalized_start session =
    if is_chained session.mode && (request.range_count % session.launch.chains == 0)
    then and_then
        (
          add_to_offset lib normalized_start request.range_count,
          record session { chain_public_key = request.public_key_hex },
        )
        (λ next named. (ok tt, record named { chain_next_start = next; chain_state_valid = true }))
    else (ok tt, session)

abbrev pub no_winner : ℕ
no_winner = 2 ^ 64 - 1

-- The winner is checked on the CPU.
unfoldable pub verified_result : Library → SearchRequest → ℕ → Stateful SearchResult
verified_result lib request winning_index =
    if winning_index == no_winner
    then lift (
        ok
          (record { found = false; address = []; offset_hex = []; attempts = request.range_count }))
    else (do
      winning_offset ← lift (add_to_offset lib request.range_start winning_index)
      verified ←
          lift (search_cpu lib (record request { range_start = winning_offset; range_count = 1 }))
      lift (
          throw_if (not verified.found || not (text_eq verified.offset_hex winning_offset))
            (runtime_error (text "CPU verification rejected the CUDA winning candidate.")))
      lift (
          ok (record {
            found = true;
            address = verified.address;
            offset_hex = winning_offset;
            attempts = request.range_count;
          })))

-- The launch, and the copy of its result to the host.
unfoldable pub launch_and_copy :
    CudaSearchMode
    → Cuda
    → SearchRequest
    → AffinePoint
    → AffinePoint
    → DevicePattern
    → Bool
    → Stateful (List ℕ)
launch_and_copy mode cuda request start_point grid_stride_point pattern initialize = do
  lift (cuda.check (text "cudaMemsetAsync(search winner)"))
  lift (cuda.check (text "cudaEventRecord(search started)"))
  found ← launch_kernel mode cuda request start_point grid_stride_point pattern initialize
  lift (cuda.check (text "cudaEventRecord(search completed)"))
  lift (cuda.check (text "cudaMemcpyAsync(search result)"))
  lift (cuda.check (text "cudaStreamSynchronize(search)"))
  lift (ok found)

-- The search in a session of the mode.
unfoldable pub search_in : CudaSearchMode → Library → Cuda → SearchRequest → Stateful SearchResult
search_in mode lib cuda request = do
  (start_point, pattern) ← prepare lib request
  lift (cuda.check (text "cudaSetDevice(search)"))
  normalized_start ← lift (add_to_offset lib request.range_start 0)
  initialize ← enter_search request normalized_start
  grid_stride_point ← plan_stride mode lib request
  found ← launch_and_copy mode cuda request start_point grid_stride_point pattern initialize
  commit_chains lib request normalized_start
  lift (cuda.check (text "cudaEventElapsedTime(search)"))
  verified_result lib request (atomic_min no_winner found)

unfoldable pub search : Library → Cuda → SearchRequest → Stateful SearchResult
search lib cuda request session = search_in session.mode lib cuda request session

abbrev pub moved_from : Exception
moved_from = logic_error (text "Cannot search with a moved-from CUDA session.")

-- `CudaSearchSession::search`, of a session that may be moved from.
unfoldable pub session_search :
    Library → Cuda → SearchRequest → Option Impl → Result SearchResult × Option Impl
session_search lib cuda request none = (err moved_from, none)
session_search lib cuda request (some session) =
    let (result, kept) = search lib cuda request session in (result, some kept)

unfoldable pub search_cuda : Library → Cuda → SearchRequest → CudaSearchMode → Result SearchResult
search_cuda lib cuda request mode = elim (make_session lib cuda mode) [
  | err thrown ↦ err thrown
  | ok session ↦ (search lib cuda request session).0
]
