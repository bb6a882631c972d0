-- ===== src/Session/After.antt =====
-- Chains of steps on a session: what holds behind a step, after an exception and after a value.
-- native/src/cuda_runtime.cu.
use tron_wallet_searcher.Common.{
  ℕ, ◌-◌, ◌^◌, ◌≡◌, refl, sym, subst, ◌∙◌, ap, ◌==◌, Bool-cases, inl, inr, Result, ok, err,
}
use tron_wallet_searcher.OpenSsl.{Library}
use tron_wallet_searcher.SearchCpu.{SearchRequest}
use tron_wallet_searcher.Session.{Impl}
use tron_wallet_searcher.Session.Search.{Stateful, and_then, prepare, verified_result}

-- What holds of a session behind a step, after an exception and after a value.
abbrev pub After : {A : Type 0} → (Impl → Type 0) → (A → Impl → Type 0) → Result A × Impl → Type 0
After Failed Done (err thrown, session) = Failed session
After Failed Done (ok value, session) = Done value session

pub and_then-After :
    {A B : Type 0} (Failed : Impl → Type 0) (Done : A → Impl → Type 0) (Last : B → Impl → Type 0)
    (step : Result A × Impl) (next : A → Stateful B)
    → After Failed Done step
    → ((value : A) (session : Impl) → Done value session → After Failed Last (next value session))
    → After Failed Last (and_then step next)
unfolding and_then
and_then-After Failed Done Last (err thrown, session) next h onward = h
and_then-After Failed Done Last (ok value, session) next h onward = onward value session h

-- A step that leaves the session as it is.
pub and_then-same :
    {A B : Type 0} (Failed : Impl → Type 0) (Last : B → Impl → Type 0) (session : Impl)
    (step : Result A × Impl) (next : A → Stateful B)
    → step.1 ≡ session
    → Failed session
    → ((value : A) → step.0 ≡ ok value → After Failed Last (next value session))
    → After Failed Last (and_then step next)
unfolding and_then
and_then-same Failed Last session (err thrown, other) next same h onward = subst Failed (sym same) h
and_then-same Failed Last session (ok value, other) next same h onward =
    subst (λ s. After Failed Last (next value s)) (sym same) (onward value refl)

pub keeps_both :
    {A B : Type 0} (session : Impl) (step : Result A × Impl) (next : A → Stateful B)
    → step.1 ≡ session
    → ((value : A) → (next value session).1 ≡ session)
    → (and_then step next).1 ≡ session
unfolding and_then
keeps_both session (err thrown, other) next same onward = same
keeps_both session (ok value, other) next same onward =
    ap (λ s. (next value s).1) same ∙ onward value

pub After-last :
    {A : Type 0} (Failed : Impl → Type 0) (step : Result A × Impl)
    → After Failed (λ value session. Failed session) step
    → Failed step.1
After-last Failed (err thrown, session) h = h
After-last Failed (ok value, session) h = h

pub prepare_keeps :
    (lib : Library) (request : SearchRequest) (session : Impl)
    → (prepare lib request session).1 ≡ session
unfolding prepare
prepare_keeps lib request session = keeps_both session _ _ refl (λ valid.
    keeps_both session _ _ refl (λ some_range. keeps_both session _ _ refl (λ small.
      keeps_both session _ _ refl (λ last. keeps_both session _ _ refl (λ key.
        keeps_both session _ _ refl (λ bytes. keeps_both session _ _ refl (λ rows. refl)))))))

pub verified_keeps :
    (lib : Library) (request : SearchRequest) (winner : ℕ) (session : Impl)
    → (verified_result lib request winner session).1 ≡ session
unfolding verified_result
verified_keeps lib request winner session = elim (Bool-cases (winner == 2 ^ 64 - 1)) [
  | inl t ↦ rw (verified_result, t) refl
  | inr f ↦
      rw (verified_result, f)
        (keeps_both session _ _ refl (λ offset.
          keeps_both session _ _ refl (λ verified. keeps_both session _ _ refl (λ checked. refl))))
]

pub After-same :
    {A : Type 0} (Failed : Impl → Type 0) (session : Impl) (step : Result A × Impl)
    → step.1 ≡ session
    → Failed session
    → After Failed (λ value reached. Failed reached) step
After-same Failed session (err thrown, other) same h = subst Failed (sym same) h
After-same Failed session (ok value, other) same h = subst Failed (sym same) h
