-- ===== src/Chain/Batch.antt =====
-- One inversion for many elements: `field_inverse_batch` of native/src/cuda_chain.cuh.
use tron_wallet_searcher.Common.{
  ℕ, ◌*◌, ◌%◌, ◌^◌, ◌≡◌, refl, ap, List, [], ◌∷◌, All, map, ap₂, subst, arith, ◌∙◌, Bool-cases, inl,
  inr, if◌then◌else◌, false, sym, replicate,
}
use tron_wallet_searcher.Common.Modular.{
  mul_mod_left, mul_mod_right, mul_mod_both, mul-pow, one-pow, pow_mod,
}
use tron_wallet_searcher.Chain.{field_multiply, field_from_small, field_is_zero}
use tron_wallet_searcher.Chain.Limbs.{value, P}
use tron_wallet_searcher.Chain.Arithmetic.{IsReduced, Represents, value-injective}
use tron_wallet_searcher.Chain.Curve.{
  field_inverse, factor_of, prefix_products, invert_back, field_inverse_batch,
}
use tron_wallet_searcher.Chain.Inverse.{
  fermat_exponent, field_inverse-Represents, one-Represents, multiply-Represents, itself,
}

-- An element below the prime that is zero or that its inverse takes to one.
abbrev pub IsInvertible : List ℕ → Type 0
IsInvertible limbs =
    IsReduced limbs
    × (field_is_zero limbs ≡ false → value (field_inverse limbs) * value limbs % P ≡ 1)

-- What each element becomes.
abbrev pub inverse_or_zero : List ℕ → List ℕ
inverse_or_zero limbs = if field_is_zero limbs then replicate 4 0 else field_inverse limbs

-- A number that its power takes to one.
abbrev IsUnit : ℕ → Type 0
IsUnit n = n ^ fermat_exponent * n % P ≡ 1

one-IsUnit : IsUnit 1
one-IsUnit = rw (one-pow fermat_exponent) refl

multiply-IsUnit : (m n : ℕ) → IsUnit m → IsUnit n → IsUnit (m * n)
multiply-IsUnit m n h k =
    let M = m ^ fermat_exponent in
    let N = n ^ fermat_exponent in
    let regroup : M * N * (m * n) ≡ M * m * (N * n) = omega arith in
    rw (mul-pow m n fermat_exponent, regroup)
      (sym (mul_mod_both (M * m) (N * n) P) ∙ ap₂ (λ (s t : ℕ). s * t % P) h k)

invertible-IsUnit :
    (limbs : List ℕ) → IsInvertible limbs → field_is_zero limbs ≡ false → IsUnit (value limbs)
invertible-IsUnit limbs (h, unit) f =
    let power = field_inverse-Represents limbs h in
    sym (mul_mod_left (value limbs ^ fermat_exponent) (value limbs) P)
    ∙ ap (λ (t : ℕ). t * value limbs % P) (sym power.1.1)
    ∙ unit f

-- The factor that an element adds to the product.
factor_lem :
    (limbs : List ℕ)
    → IsInvertible limbs
    → Represents (factor_of limbs) (value (factor_of limbs) % P) × IsUnit (value (factor_of limbs))
factor_lem limbs h = elim (Bool-cases (field_is_zero limbs)) [
  | inl t ↦
      let (one, is_one) = one-Represents in
      rw t (itself (field_from_small 1) one, rw is_one one-IsUnit)
  | inr f ↦ rw f (itself limbs h.0, invertible-IsUnit limbs h f)
]

-- The product of the factors.
product_of : List (List ℕ) → ℕ
product_of [] = 1
product_of (v ∷ vs) = value (factor_of v) * product_of vs

prefix_products-Represents :
    (vs : List (List ℕ)) (p : List ℕ) (m : ℕ)
    → All IsInvertible vs
    → Represents p (m % P)
    → Represents (prefix_products vs p).1 (m * product_of vs % P)
unfolding prefix_products product_of
prefix_products-Represents [] p m h k = let e : m * 1 ≡ m = omega arith in rw e k
prefix_products-Represents (v ∷ vs) p m h k =
    let n = value (factor_of v) in
    let (factor, unit) = factor_lem v h.0 in
    let next = multiply-Represents p (factor_of v) m n k factor in
    let e : m * (n * product_of vs) ≡ m * n * product_of vs = omega arith in
    rw e (prefix_products-Represents vs (field_multiply p (factor_of v)) (m * n) h.1 next)

-- Two representatives of one number are the same limbs.
same_limbs : (xs ys : List ℕ) (n : ℕ) → Represents xs n → Represents ys n → xs ≡ ys
same_limbs xs ys n (h, first) (k, second) =
    value-injective xs ys (omega (arith, h.0.0, k.0.0)) h.0.1 k.0.1 (first ∙ sym second)

-- An inverse of a product, less a factor.
cancel : (a b : ℕ) → IsUnit b → (a * b) ^ fermat_exponent * b % P ≡ a ^ fermat_exponent % P
cancel a b unit =
    let A = a ^ fermat_exponent in
    let B = b ^ fermat_exponent in
    let regroup : A * B * b ≡ A * (B * b) = omega arith in
    let once : A * 1 ≡ A = omega arith in
    rw (mul-pow a b fermat_exponent, regroup)
      (sym (mul_mod_right A (B * b) P)
        ∙ ap (λ (t : ℕ). A * t % P) unit
        ∙ ap (λ (t : ℕ). t % P) once)

one_element :
    (u out : List ℕ)
    → IsInvertible u
    → Represents out (value (factor_of u) ^ fermat_exponent % P)
    → (if field_is_zero u then replicate 4 0 else out) ≡ inverse_or_zero u
one_element u out h k = elim (Bool-cases (field_is_zero u)) [
  | inl t ↦ rw t refl
  | inr f ↦
      let here = rw f at k in
      rw f (
        same_limbs out (field_inverse u) (value u ^ fermat_exponent % P) here
          (field_inverse-Represents u h.0).1)
]

-- The way back: every element is replaced by its inverse, and the inverse of the product before
-- them is reached.
invert_back_lem :
    (vs : List (List ℕ)) (p inverse : List ℕ) (m : ℕ)
    → All IsInvertible vs
    → Represents p (m % P)
    → IsUnit m
    → Represents inverse ((m * product_of vs) ^ fermat_exponent % P)
    → ((invert_back vs (p ∷ (prefix_products vs p).0) inverse).0 ≡ map inverse_or_zero vs)
      × Represents
          (invert_back vs (p ∷ (prefix_products vs p).0) inverse).1
          (m ^ fermat_exponent % P)
unfolding invert_back prefix_products product_of
invert_back_lem [] p inverse m h k unit whole =
    let e : m * 1 ≡ m = omega arith in
    (refl, subst (λ (t : ℕ). Represents inverse (t ^ fermat_exponent % P)) e whole)
invert_back_lem (v ∷ vs) p inverse m h k unit whole =
    let n = value (factor_of v) in
    let (factor, unit_too) = factor_lem v h.0 in
    let next = multiply-Represents p (factor_of v) m n k factor in
    let e : m * (n * product_of vs) ≡ m * n * product_of vs = omega arith in
    let (outputs, reached) =
      invert_back_lem vs (field_multiply p (factor_of v)) inverse (m * n) h.1 next
        (multiply-IsUnit m n unit unit_too)
        (subst (λ (t : ℕ). Represents inverse (t ^ fermat_exponent % P)) e whole) in
    let r =
      (invert_back vs
        (field_multiply p (factor_of v) ∷ (prefix_products vs (field_multiply p (factor_of v))).0)
        inverse).1 in
    let swap : m * n ≡ n * m = omega arith in
    let before = multiply-Represents r p ((m * n) ^ fermat_exponent) m reached k in
    let after = multiply-Represents r (factor_of v) ((m * n) ^ fermat_exponent) n reached factor in
    let inverted : Represents (field_multiply r p) (n ^ fermat_exponent % P) =
      (before.0, before.1 ∙ ap (λ (t : ℕ). t ^ fermat_exponent * m % P) swap ∙ cancel n m unit) in
    (
      ap₂ (λ o os. o ∷ os) (one_element v (field_multiply r p) h.0 inverted) outputs,
      (after.0, after.1 ∙ cancel m n unit_too),
    )

-- With one inversion, `field_inverse_batch` returns for every element what `field_inverse` returns
-- for it, and zero for zero, when every element is below the prime and every one that is not zero
-- gives one modulo the prime when multiplied by its `field_inverse`.
pub field_inverse_batch-eq-field_inverse :
    (values : List (List ℕ))
    → All IsInvertible values
    → field_inverse_batch values ≡ map inverse_or_zero values
unfolding field_inverse_batch
field_inverse_batch-eq-field_inverse values h =
    let (one, is_one) = one-Represents in
    let product = prefix_products-Represents values (field_from_small 1) 1 h (one, is_one) in
    let power =
      field_inverse-Represents (prefix_products values (field_from_small 1)).1 product.0 in
    let whole : Represents (field_inverse (prefix_products values (field_from_small 1)).1)
        ((1 * product_of values) ^ fermat_exponent % P) =
      (
        power.1.0,
        power.1.1
            ∙ ap (λ (t : ℕ). t ^ fermat_exponent % P) product.1
            ∙ pow_mod (1 * product_of values) fermat_exponent P,
      ) in
    (invert_back_lem values (field_from_small 1)
      (field_inverse (prefix_products values (field_from_small 1)).1) 1 h (one, is_one) one-IsUnit
      whole).0
