-- ===== src/Session/Tracked.antt =====
-- The reuse of the chains of a session from one search to the next.
-- native/src/cuda_runtime.cu.
use mathlib.Core.Bool.{false≢true}
use tron_wallet_searcher.Common.{
  ℕ, ◌-◌, ◌%◌, ◌^◌, ◌≡◌, refl, sym, subst, ◌∙◌, ap, List, Bool, true, false, ◌==◌, ◌&&◌, Bool-cases,
  inl, inr, Result, ok, err, text, text_eq→eq, arith,
}
use tron_wallet_searcher.OpenSsl.{Library}
use tron_wallet_searcher.Scalars.{add_to_offset}
use tron_wallet_searcher.SearchCpu.{SearchRequest, SearchResult}
use tron_wallet_searcher.Chain.Curve.{Point}
use tron_wallet_searcher.Secp.Curve.{AffinePoint}
use tron_wallet_searcher.Kernels.{DevicePattern}
use tron_wallet_searcher.Kernels.Grid.{atomic_min}
use tron_wallet_searcher.Session.{
  CudaSearchMode, reference, incremental, batched, chained8, chained16, Cuda, Launch, Impl,
  is_chained,
}
use tron_wallet_searcher.Session.Search.{
  prepare, must_initialize, enter_search, plan_stride, initialized_points, initialize_chains,
  searched_points, search_chains, launch_kernel, commit_chains, launch_and_copy, search, search_in,
  launch_chains,
}
use tron_wallet_searcher.Session.After.{
  After, and_then-After, and_then-same, After-last, prepare_keeps, verified_keeps, After-same,
}
use tron_wallet_searcher.Session.Plain.{search_plain}

-- Points that stand at a start for a key: those of an initialization, and those that a launch of
-- whole steps has moved on.
pub data Stems (lib : Library) (launch : Launch) (stride : Point) (key : List ℕ)
    : List ℕ → List Point → Type 0 where
  initialized :
      (request : SearchRequest) (checked session : Impl) (start_point : AffinePoint)
      (pattern : DevicePattern) {start : List ℕ}
      → session.launch ≡ launch
      → request.public_key_hex ≡ key
      → (prepare lib request checked).0 ≡ ok (start_point, pattern)
      → add_to_offset lib request.range_start 0 ≡ ok start
      → Stems lib launch stride key start (initialized_points request start_point session)
  searched :
      (request : SearchRequest) (session : Impl) (pattern : DevicePattern) {start next : List ℕ}
      → Stems lib launch stride key start session.chain_points
      → session.launch ≡ launch
      → session.chain_stride_point ≡ stride
      → request.public_key_hex ≡ key
      → request.range_count % launch.chains ≡ 0
      → add_to_offset lib start request.range_count ≡ ok next
      → Stems lib launch stride key next (searched_points request pattern session).0

-- The chain state of a session.
abbrev pub IsTracked : Library → Impl → Type 0
IsTracked lib session =
    session.chain_state_valid ≡ true
    → Stems lib session.launch session.chain_stride_point session.chain_public_key
        session.chain_next_start session.chain_points

-- In the chained modes nothing is claimed while the launch is under way.
abbrev IsInvalid : Impl → Type 0
IsInvalid session = session.chain_state_valid ≡ false

invalid-IsTracked : (lib : Library) (session : Impl) → IsInvalid session → IsTracked lib session
invalid-IsTracked lib session invalid valid = absurd (false≢true (sym invalid ∙ valid))

-- The points of a session stand at a start for the key of a request.
abbrev Stands : Library → SearchRequest → List ℕ → Impl → Type 0
Stands lib request start session =
    Stems lib session.launch session.chain_stride_point request.public_key_hex start
      session.chain_points

-- The points of a session are those that the search has moved.
abbrev IsMoved : Library → SearchRequest → List ℕ → Impl → Type 0
IsMoved lib request start session =
    (before : Impl) × (pattern : DevicePattern) × (session.chain_points
      ≡ (searched_points request pattern before).0)
    × Stands lib request start before
    × (before.launch ≡ session.launch)
    × (before.chain_stride_point ≡ session.chain_stride_point)
    × IsInvalid session

plan_keeps :
    (m : CudaSearchMode) (lib : Library) (request : SearchRequest) (session : Impl)
    → is_chained m ≡ true
    → (plan_stride m lib request session).1 ≡ session
unfolding plan_stride is_chained
plan_keeps reference lib request session c = absurd (false≢true c)
plan_keeps incremental lib request session c = absurd (false≢true c)
plan_keeps batched lib request session c = absurd (false≢true c)
plan_keeps chained8 lib request session c = refl
plan_keeps chained16 lib request session c = refl

-- Without an initialization the points stand where the search starts.
reuse-Stands :
    (lib : Library) (request : SearchRequest) (start : List ℕ) (session : Impl)
    → is_chained session.mode ≡ true
    → IsTracked lib session
    → must_initialize request start session ≡ false
    → Stands lib request start session
unfolding must_initialize
reuse-Stands lib request start session c h reuse =
    let same = rw (must_initialize, c) at reuse in
    let valid : session.chain_state_valid ≡ true = ground (arith, same) in
    let key = text_eq→eq session.chain_public_key request.public_key_hex (ground (arith, same)) in
    let next = text_eq→eq session.chain_next_start start (ground (arith, same)) in
    subst (λ k. Stems lib session.launch session.chain_stride_point k start session.chain_points)
      key
      (subst
        (λ n.
          Stems lib session.launch session.chain_stride_point session.chain_public_key n
            session.chain_points)
        next (h valid))

After-outcome :
    (Failed Done : Impl → Type 0) (outcome : Result (Unit {0})) (reached : Impl)
    → Failed reached
    → Done reached
    → After Failed (λ done behind. Done behind) (outcome, reached)
After-outcome Failed Done (err thrown) reached failed fine = failed
After-outcome Failed Done (ok done) reached failed fine = fine

initialize_chains-After :
    (lib : Library) (cuda : Cuda) (request : SearchRequest) (start : List ℕ)
    (start_point : AffinePoint) (pattern : DevicePattern) (initialize : Bool)
    (checked session : Impl)
    → (prepare lib request checked).0 ≡ ok (start_point, pattern)
    → add_to_offset lib request.range_start 0 ≡ ok start
    → IsInvalid session
    → (initialize ≡ false → Stands lib request start session)
    → After
        (IsTracked lib)
        (λ done reached. IsInvalid reached × Stands lib request start reached)
        (initialize_chains cuda request start_point initialize session)
unfolding initialize_chains
initialize_chains-After lib cuda request start start_point pattern false checked session p n invalid
      reuse =
    (invalid, reuse refl)
initialize_chains-After lib cuda request start start_point pattern true checked session p n invalid
      reuse =
    let moved = record session { chain_points = initialized_points request start_point session } in
    After-outcome (IsTracked lib) (λ reached. IsInvalid reached × Stands lib request start reached)
      (cuda.check (text "chained_initialize_kernel launch")) moved
      (invalid-IsTracked lib moved invalid)
      (invalid, initialized request checked session start_point pattern refl refl p n)

search_chains-After :
    (lib : Library) (cuda : Cuda) (request : SearchRequest) (start : List ℕ)
    (pattern : DevicePattern) (session : Impl)
    → IsInvalid session
    → Stands lib request start session
    → After
        (IsTracked lib)
        (λ found reached. IsMoved lib request start reached)
        (search_chains cuda request pattern session)
unfolding search_chains
search_chains-After lib cuda request start pattern session invalid stands =
    let moved = record session { chain_points = (searched_points request pattern session).0 } in
    and_then-same (IsTracked lib) (λ found reached. IsMoved lib request start reached) moved _ _
      refl (invalid-IsTracked lib moved invalid)
      (λ done d. (session, pattern, refl, stands, refl, refl, invalid))

launch_kernel-After :
    (m : CudaSearchMode) (lib : Library) (cuda : Cuda) (request : SearchRequest) (start : List ℕ)
    (start_point stride : AffinePoint) (pattern : DevicePattern) (initialize : Bool)
    (checked session : Impl)
    → is_chained m ≡ true
    → (prepare lib request checked).0 ≡ ok (start_point, pattern)
    → add_to_offset lib request.range_start 0 ≡ ok start
    → IsInvalid session
    → (initialize ≡ false → Stands lib request start session)
    → After
        (IsTracked lib)
        (λ found reached. IsMoved lib request start reached)
        (launch_kernel m cuda request start_point stride pattern initialize session)
unfolding launch_kernel launch_chains is_chained
launch_kernel-After reference lib cuda request start start_point stride pattern initialize checked
      session c p n invalid reuse =
    absurd (false≢true c)
launch_kernel-After incremental lib cuda request start start_point stride pattern initialize checked
      session c p n invalid reuse =
    absurd (false≢true c)
launch_kernel-After batched lib cuda request start start_point stride pattern initialize checked
      session c p n invalid reuse =
    absurd (false≢true c)
launch_kernel-After chained8 lib cuda request start start_point stride pattern initialize checked
      session c p n invalid reuse =
    and_then-After (IsTracked lib) _ _ _ _
      (initialize_chains-After lib cuda request start start_point pattern initialize checked session
        p n invalid reuse)
      (λ done reached r. search_chains-After lib cuda request start pattern reached r.0 r.1)
launch_kernel-After chained16 lib cuda request start start_point stride pattern initialize checked
      session c p n invalid reuse =
    and_then-After (IsTracked lib) _ _ _ _
      (initialize_chains-After lib cuda request start start_point pattern initialize checked session
        p n invalid reuse)
      (λ done reached r. search_chains-After lib cuda request start pattern reached r.0 r.1)

moved-IsTracked :
    (lib : Library) (request : SearchRequest) (start : List ℕ) (session : Impl)
    → IsMoved lib request start session
    → IsTracked lib session
moved-IsTracked lib request start session m = invalid-IsTracked lib session m.6

launch_and_copy-After :
    (m : CudaSearchMode) (lib : Library) (cuda : Cuda) (request : SearchRequest) (start : List ℕ)
    (start_point stride : AffinePoint) (pattern : DevicePattern) (initialize : Bool)
    (checked session : Impl)
    → is_chained m ≡ true
    → (prepare lib request checked).0 ≡ ok (start_point, pattern)
    → add_to_offset lib request.range_start 0 ≡ ok start
    → IsInvalid session
    → (initialize ≡ false → Stands lib request start session)
    → After
        (IsTracked lib)
        (λ found reached. IsMoved lib request start reached)
        (launch_and_copy m cuda request start_point stride pattern initialize session)
unfolding launch_and_copy
launch_and_copy-After m lib cuda request start start_point stride pattern initialize checked session
      c p n invalid reuse =
    let Failed = IsTracked lib in
    let Moved = λ (found : List ℕ) (reached : Impl). IsMoved lib request start reached in
    let tracked = invalid-IsTracked lib session invalid in
    and_then-same Failed Moved session _ _ refl tracked (λ set e.
      and_then-same Failed Moved session _ _ refl tracked (λ started e'.
        and_then-After Failed Moved Moved _ _
          (launch_kernel-After m lib cuda request start start_point stride pattern initialize
            checked session c p n invalid reuse)
          (λ found reached moved.
            let kept = moved-IsTracked lib request start reached moved in
            and_then-same Failed Moved reached _ _ refl kept (λ completed k.
              and_then-same Failed Moved reached _ _ refl kept (λ copied k'.
                and_then-same Failed Moved reached _ _ refl kept (λ waited k''. moved))))))

commit_chains-After :
    (lib : Library) (request : SearchRequest) (start : List ℕ) (session : Impl)
    → IsMoved lib request start session
    → After
        (IsTracked lib)
        (λ done reached. IsTracked lib reached)
        (commit_chains lib request start session)
unfolding commit_chains
commit_chains-After lib request start session
      (before, pattern, points, stands, launch, stride, invalid) =
    let kept = invalid-IsTracked lib session invalid in
    let whole = is_chained session.mode && (request.range_count % session.launch.chains == 0) in
    elim (Bool-cases whole) [
      | inl t ↦
          let rounds : request.range_count % session.launch.chains ≡ 0 = ground (arith, t) in
          let key = request.public_key_hex in
          let named : Impl = record session { chain_public_key = key } in
          let stood =
            subst (λ s. Stems lib session.launch s key start before.chain_points) stride
              (subst (λ l. Stems lib l before.chain_stride_point key start before.chain_points)
                launch stands) in
          rw (commit_chains, t)
            (and_then-same (IsTracked lib) (λ done reached. IsTracked lib reached) named _ _ refl
              (invalid-IsTracked lib named invalid)
              (λ next n valid.
                subst (Stems lib session.launch session.chain_stride_point key next) (sym points)
                  (searched request before pattern stood launch stride refl rounds n)))
      | inr f ↦ rw (commit_chains, f) kept
    ]

enter_search-After :
    (lib : Library) (request : SearchRequest) (start : List ℕ) (session : Impl)
    → is_chained session.mode ≡ true
    → After
        (IsTracked lib)
        (λ initialize reached.
          (initialize ≡ must_initialize request start session)
          × (reached ≡ record session { chain_state_valid = false }))
        (enter_search request start session)
unfolding enter_search
enter_search-After lib request start session c = rw (enter_search, c) (refl, refl)

-- A session in a chained mode stays tracked.
search_chained :
    (lib : Library) (cuda : Cuda) (request : SearchRequest) (session : Impl)
    → is_chained session.mode ≡ true
    → IsTracked lib session
    → IsTracked lib (search lib cuda request session).1
unfolding search search_in
search_chained lib cuda request session c h =
    let Failed = IsTracked lib in
    let Last = λ (result : SearchResult) (reached : Impl). IsTracked lib reached in
    After-last Failed (search lib cuda request session) (
      and_then-same Failed Last session (prepare lib request session) _
        (prepare_keeps lib request session) h
        (λ prepared p. and_then-same Failed Last session _ _ refl h (λ device d.
          and_then-same Failed Last session _ _ refl h (λ start n.
            and_then-After Failed
              (λ initialize reached.
                (initialize ≡ must_initialize request start session)
                × (reached ≡ record session { chain_state_valid = false }))
              Last _ _ (enter_search-After lib request start session c)
              (λ initialize entered i.
                let invalid : IsInvalid entered = ap (λ (t : Impl). t.chain_state_valid) i.1 in
                let reuse : initialize ≡ false → Stands lib request start entered = λ none.
                  subst (Stands lib request start) (sym i.1)
                    (reuse-Stands lib request start session c h (sym i.0 ∙ none)) in
                let tracked = invalid-IsTracked lib entered invalid in
                and_then-same Failed Last entered _ _
                  (plan_keeps session.mode lib request entered c) tracked
                  (λ stride s.
                    and_then-After Failed (λ found reached. IsMoved lib request start reached) Last
                      _ _
                      (launch_and_copy-After session.mode lib cuda request start prepared.0 stride
                        prepared.1 initialize session entered c p n invalid reuse)
                      (λ found reached moved.
                        and_then-After Failed (λ done behind. IsTracked lib behind) Last _ _
                          (commit_chains-After lib request start reached moved)
                          (λ done behind k.
                            and_then-same Failed Last behind _ _ refl k (λ elapsed e.
                              After-same Failed behind _
                                (verified_keeps lib request (atomic_min (2 ^ 64 - 1) found) behind)
                                k)))))))))

-- Every search, whether it returns or throws and whatever the CUDA calls answer, keeps this of a
-- session: while its chains are marked valid, they are the points that launches of whole steps have
-- moved on from an initialization, for the key and up to the start that the session remembers.
pub search-IsTracked :
    (lib : Library) (cuda : Cuda) (request : SearchRequest) (session : Impl)
    → IsTracked lib session
    → IsTracked lib (search lib cuda request session).1
search-IsTracked lib cuda request session h = elim (Bool-cases (is_chained session.mode)) [
  | inl c ↦ search_chained lib cuda request session c h
  | inr c ↦ subst (IsTracked lib) (sym (search_plain lib cuda request session c)) h
]
