-- ===== src/Session/Plain.antt =====
-- The search of the modes without chains. native/src/cuda_runtime.cu.
use mathlib.Core.Bool.{false≢true}
use tron_wallet_searcher.Common.{
  ℕ, ◌-◌, ◌^◌, Option-cases, ◌≡◌, refl, sym, subst, List, Bool, false, ◌==◌, Bool-cases, inl, inr,
}
use tron_wallet_searcher.OpenSsl.{Library}
use tron_wallet_searcher.SearchCpu.{SearchRequest, SearchResult}
use tron_wallet_searcher.Secp.Curve.{AffinePoint}
use tron_wallet_searcher.Kernels.{DevicePattern}
use tron_wallet_searcher.Kernels.Grid.{atomic_min}
use tron_wallet_searcher.Session.{
  CudaSearchMode, reference, incremental, batched, chained8, chained16, Cuda, Impl, is_chained,
  public_key_of_scalar,
}
use tron_wallet_searcher.Session.Search.{
  prepare, fresh_stride, stride_point, enter_search, plan_stride, launch_kernel, commit_chains,
  launch_and_copy, search, search_in,
}
use tron_wallet_searcher.Session.After.{
  After, and_then-After, and_then-same, keeps_both, After-last, prepare_keeps, verified_keeps,
  After-same,
}

-- The modes without chains touch nothing but the stride that is kept.
abbrev pub SameChains : Impl → Impl → Type 0
SameChains session reached = reached ≡ record session { cached_stride = reached.cached_stride }

fresh_same :
    (lib : Library) (grid_stride : ℕ) (session : Impl)
    → After
        (SameChains session)
        (λ point reached. SameChains session reached)
        (fresh_stride lib grid_stride session)
unfolding fresh_stride
fresh_same lib grid_stride session =
    and_then-same (SameChains session) (λ point reached. SameChains session reached) session
      (public_key_of_scalar lib grid_stride, session) _ refl refl (λ bytes found. refl)

stride_same :
    (lib : Library) (grid_stride : ℕ) (session : Impl)
    → After
        (SameChains session)
        (λ point reached. SameChains session reached)
        (stride_point lib grid_stride session)
unfolding stride_point
stride_same lib grid_stride session = elim (Option-cases session.cached_stride) [
  | inl e ↦ rw (stride_point, e) (fresh_same lib grid_stride session)
  | inr ((cached, point), e) ↦ elim (Bool-cases (grid_stride == cached)) [
    | inl t ↦ rw (stride_point, e, t) refl
    | inr f ↦ rw (stride_point, e, f) (fresh_same lib grid_stride session)
  ]
]

plan_same :
    (m : CudaSearchMode) (lib : Library) (request : SearchRequest) (session : Impl)
    → After
        (SameChains session)
        (λ point reached. SameChains session reached)
        (plan_stride m lib request session)
unfolding plan_stride
plan_same reference lib request session = refl
plan_same incremental lib request session = stride_same lib _ session
plan_same batched lib request session = stride_same lib _ session
plan_same chained8 lib request session = refl
plan_same chained16 lib request session = refl

launch_keeps :
    (m : CudaSearchMode) (cuda : Cuda) (request : SearchRequest) (start_point stride : AffinePoint)
    (pattern : DevicePattern) (initialize : Bool) (session : Impl)
    → is_chained m ≡ false
    → (launch_kernel m cuda request start_point stride pattern initialize session).1 ≡ session
unfolding launch_kernel is_chained
launch_keeps reference cuda request start_point stride pattern initialize session c =
    keeps_both session _ _ refl (λ done. refl)
launch_keeps incremental cuda request start_point stride pattern initialize session c =
    keeps_both session _ _ refl (λ done. refl)
launch_keeps batched cuda request start_point stride pattern initialize session c =
    keeps_both session _ _ refl (λ done. refl)
launch_keeps chained8 cuda request start_point stride pattern initialize session c =
    absurd (false≢true (sym c))
launch_keeps chained16 cuda request start_point stride pattern initialize session c =
    absurd (false≢true (sym c))

copy_keeps :
    (m : CudaSearchMode) (cuda : Cuda) (request : SearchRequest) (start_point stride : AffinePoint)
    (pattern : DevicePattern) (initialize : Bool) (session : Impl)
    → is_chained m ≡ false
    → (launch_and_copy m cuda request start_point stride pattern initialize session).1 ≡ session
unfolding launch_and_copy
copy_keeps m cuda request start_point stride pattern initialize session c =
    keeps_both session _ _ refl (λ set. keeps_both session _ _ refl (λ started.
      keeps_both session _ _
        (launch_keeps m cuda request start_point stride pattern initialize session c)
        (λ found. keeps_both session _ _ refl (λ completed.
          keeps_both session _ _ refl (λ copied. keeps_both session _ _ refl (λ waited. refl))))))

commit_keeps :
    (lib : Library) (request : SearchRequest) (start : List ℕ) (session : Impl)
    → is_chained session.mode ≡ false
    → (commit_chains lib request start session).1 ≡ session
unfolding commit_chains
commit_keeps lib request start session c = rw (commit_chains, c) refl

enter_keeps :
    (request : SearchRequest) (start : List ℕ) (session : Impl)
    → is_chained session.mode ≡ false
    → (enter_search request start session).1 ≡ session
unfolding enter_search
enter_keeps request start session c = rw (enter_search, c) refl

-- A search in a mode without chains.
pub search_plain :
    (lib : Library) (cuda : Cuda) (request : SearchRequest) (session : Impl)
    → is_chained session.mode ≡ false
    → SameChains session (search lib cuda request session).1
unfolding search search_in
search_plain lib cuda request session c =
    let Kept = λ (reached : Impl). SameChains session reached in
    let Last = λ (result : SearchResult) (reached : Impl). SameChains session reached in
    After-last Kept (search lib cuda request session) (
      and_then-same Kept Last session (prepare lib request session) _
        (prepare_keeps lib request session) refl
        (λ prepared p. and_then-same Kept Last session _ _ refl refl (λ device d.
          and_then-same Kept Last session _ _ refl refl (λ start n.
            and_then-same Kept Last session _ _ (enter_keeps request start session c) refl
              (λ initialize i.
                and_then-After Kept (λ point reached. SameChains session reached) Last _ _
                  (plan_same session.mode lib request session)
                  (λ stride reached s.
                    let plain : is_chained reached.mode ≡ false =
                      subst (λ t. is_chained t.mode ≡ false) (sym s) c in
                    and_then-same Kept Last reached _ _
                      (copy_keeps session.mode cuda request prepared.0 stride prepared.1 initialize
                        reached c)
                      s
                      (λ found f.
                        and_then-same Kept Last reached _ _
                          (commit_keeps lib request start reached plain) s
                          (λ committed k. and_then-same Kept Last reached _ _ refl s (λ elapsed e.
                            After-same Kept reached _
                              (verified_keeps lib request (atomic_min (2 ^ 64 - 1) found) reached)
                              s)))))))))
