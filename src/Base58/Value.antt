-- ===== src/Base58/Value.antt =====
-- The number that a list of digits stands for.
use tron_wallet_searcher.Common.{
  ℕ, zero, suc, ◌+◌, ◌*◌, ◌^◌, ◌≡◌, ◌<◌, ◌≤◌, refl, ap, ◌∙◌, List, [], ◌∷◌, ◌++◌, reverse,
  replicate, length, All, arith,
}
use mathlib.Core.List.{reverse-cons}
use native.Mathlib.Nat.{pow-suc, pow-zero, mul-le-mul_right}

-- Least significant digit first.
abbrev pub le_value : ℕ → List ℕ → ℕ
le_value base [] = 0
le_value base (d ∷ ds) = d + base * le_value base ds

-- Most significant digit first, behind the number `acc`.
abbrev pub be_value : ℕ → ℕ → List ℕ → ℕ
be_value base acc [] = acc
be_value base acc (d ∷ ds) = be_value base (acc * base + d) ds

pub be_value-append :
    (base acc : ℕ) (xs ys : List ℕ)
    → be_value base acc (xs ++ ys) ≡ be_value base (be_value base acc xs) ys
be_value-append base acc [] ys = refl
be_value-append base acc (x ∷ xs) ys = be_value-append base (acc * base + x) xs ys

pub be_value-reverse : (base : ℕ) (ds : List ℕ) → be_value base 0 (reverse ds) ≡ le_value base ds
be_value-reverse base [] = refl
be_value-reverse base (d ∷ ds) =
    rw (reverse-cons d ds, be_value-append base 0 (reverse ds) (d ∷ []))
      (omega (arith, ap (λ (t : ℕ). t * base) (be_value-reverse base ds)))

pub be_value-zeroes :
    (base n : ℕ) (ds : List ℕ) → be_value base 0 (replicate n 0 ++ ds) ≡ be_value base 0 ds
be_value-zeroes base zero ds = refl
be_value-zeroes base (suc n) ds =
    ap (λ (t : ℕ). be_value base t (replicate n 0 ++ ds)) (zero_first base)
    ∙ be_value-zeroes base n ds
  where
    zero_first : (b : ℕ) → 0 * b + 0 ≡ 0
    zero_first b = omega arith

pub le_value-replicate : (base n : ℕ) → le_value base (replicate n 0) ≡ 0
le_value-replicate base zero = refl
le_value-replicate base (suc n) =
    omega (arith, ap (λ (t : ℕ). base * t) (le_value-replicate base n))

-- A number in front counts for its value times the weight of its place.
pub be_value-acc :
    (base acc : ℕ) (ds : List ℕ)
    → be_value base acc ds ≡ acc * base ^ length ds + be_value base 0 ds
be_value-acc base acc [] = omega (arith, ap (λ (t : ℕ). acc * t) (pow-zero base))
be_value-acc base acc (d ∷ ds) = omega (
  arith,
  be_value-acc base (acc * base + d) ds,
  be_value-acc base (0 * base + d) ds,
  ap (λ (t : ℕ). acc * t) (pow-suc base (length ds)),
)

-- `n` digits stand for a number below the n-th power of the base.
pub be_value-lt :
    (base : ℕ) (ds : List ℕ) → All (λ d. d < base) ds → be_value base 0 ds < base ^ length ds
be_value-lt base [] h = omega (arith, pow-zero base)
be_value-lt base (d ∷ ds) h =
    let below = be_value-lt base ds h.1 in
    let head : suc d * base ^ length ds ≤ base * base ^ length ds = mul-le-mul_right _ h.0 in
    omega (arith, be_value-acc base (0 * base + d) ds, pow-suc base (length ds))
