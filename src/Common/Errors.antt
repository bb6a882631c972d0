-- ===== src/Common/Errors.antt =====
-- C++ exceptions as values.
use Prim.Native.Nat.{ℕ}
use mathlib.Core.Path.{◌≡◌, refl}
use mathlib.Core.Bool.{Bool, true, false}
use mathlib.Core.List.{List}
use native.Mathlib.Omega.{arith}

-- The classes of <stdexcept> that the generator throws, with the text of `what()`.
pub data Exception : Type 0 where
  invalid_argument : List ℕ → Exception
  runtime_error : List ℕ → Exception
  overflow_error : List ℕ → Exception
  underflow_error : List ℕ → Exception
  logic_error : List ℕ → Exception

pub data Result {ℓ} (X : Type ℓ) : Type ℓ where
  err : Exception → Result X
  ok : X → Result X

-- The first exception ends the chain.
infixl 5 ◌>>=◌ ◌>>◌
abbrev pub ◌>>=◌ {ℓ κ} : {X : Type ℓ} {Y : Type κ} → Result X → (X → Result Y) → Result Y
err thrown >>= next = err thrown
ok value >>= next = next value

abbrev pub ◌>>◌ {ℓ} : {Y : Type ℓ} → Result (Unit {0}) → Result Y → Result Y
err thrown >> next = err thrown
ok done >> next = next

-- `if (bad) { throw e; }`
abbrev pub throw_if : Bool → Exception → Result (Unit {0})
throw_if true e = err e
throw_if false e = ok tt

pub ok-injective {ℓ} : {A : Type ℓ} {a b : A} → ok a ≡ ok b → a ≡ b
ok-injective same = ground arith

-- Inversion of a successful bind.
pub >>=-eq-ok {ℓ κ} :
    {X : Type ℓ} {Y : Type κ} (first : Result X) (next : X → Result Y) {y : Y}
    → (first >>= next) ≡ ok y
    → (x : X) × (first ≡ ok x) × (next x ≡ ok y)
>>=-eq-ok (err thrown) next h = ground arith
>>=-eq-ok (ok x) next h = (x, refl, h)
