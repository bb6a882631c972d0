-- ===== src/Chain/Inverse.antt =====
-- Inversion as a power modulo the prime: `field_inverse` of native/src/cuda_chain.cuh.
use tron_wallet_searcher.Common.{
  ℕ, zero, suc, ◌+◌, ◌*◌, ◌%◌, ◌^◌, ◌≡◌, ◌<◌, refl, ap, List, arith, ◌∙◌, Bool-cases, inl, inr,
  ◌==◌, if◌then◌else◌, not, sym, ap₂,
}
use tron_wallet_searcher.Common.Words.{IsU64}
use tron_wallet_searcher.Common.Modular.{mul_mod_both, pow_binary}
use tron_wallet_searcher.Chain.{field_multiply, field_square, field_from_small}
use tron_wallet_searcher.Chain.Limbs.{value, P}
use tron_wallet_searcher.Chain.Arithmetic.{IsReduced, Represents, field_multiply-Represents}
use tron_wallet_searcher.Chain.Curve.{exponent_bit, inverse_loop, field_inverse}
use native.Mathlib.Nat.{pow-suc, pow-zero}

-- The bits of the exponent from a place on, as a number.
exponent_from : ℕ → ℕ → ℕ
exponent_from zero bit_index = 0
exponent_from (suc rounds) bit_index =
    exponent_bit bit_index + 2 * exponent_from rounds (bit_index + 1)

-- The prime less two.
unfoldable pub fermat_exponent : ℕ
fermat_exponent = 0xfffffffffffffffffffffffffffffffffffffffffffffffffffffffefffffc2d

exponent_whole : exponent_from 256 0 ≡ fermat_exponent
unfolding exponent_from fermat_exponent
exponent_whole = refl

fermat_exponent_below : fermat_exponent + 2 ≡ P
unfolding fermat_exponent
fermat_exponent_below = refl

pub one-Represents : Represents (field_from_small 1) 1
unfolding field_from_small
one-Represents =
    let z : IsU64 0 = omega arith in
    let one : IsU64 1 = omega arith in (((refl, (one, (z, (z, (z, tt))))), omega arith), refl)

-- A product of representatives represents the product.
pub multiply-Represents :
    (xs ys : List ℕ) (m n : ℕ)
    → Represents xs (m % P)
    → Represents ys (n % P)
    → Represents (field_multiply xs ys) (m * n % P)
multiply-Represents xs ys m n (h, first) (k, second) =
    let (out, product) = field_multiply-Represents xs ys h k in
    (out, product ∙ ap₂ (λ (s t : ℕ). s * t % P) first second ∙ mul_mod_both m n P)

pub itself : (xs : List ℕ) → IsReduced xs → Represents xs (value xs % P)
itself xs h = (h, omega (arith, h.1))

-- One more bit of the exponent.
power_step :
    (r b bit rest : ℕ)
    → bit < 2
    → (if not (bit == 0) then r * b else r) * (b * b) ^ rest ≡ r * b ^ (bit + 2 * rest)
power_step r b zero rest small =
    let e : 0 + 2 * rest ≡ 2 * rest = omega arith in
    rw e (ap (λ (t : ℕ). r * t) (pow_binary b rest))
power_step r b (suc zero) rest small =
    let e : 1 + 2 * rest ≡ suc (2 * rest) = omega arith in
    rw (e, pow-suc b (2 * rest)) (omega (arith, ap (λ (t : ℕ). r * b * t) (pow_binary b rest)))
power_step r b (suc (suc bit)) rest small = absurd (omega arith)

inverse_loop-Represents :
    (rounds bit_index : ℕ) (result base : List ℕ) (r b : ℕ)
    → Represents result (r % P)
    → Represents base (b % P)
    → Represents
        (inverse_loop rounds bit_index result base)
        (r * b ^ exponent_from rounds bit_index % P)
unfolding inverse_loop exponent_from field_square
inverse_loop-Represents zero bit_index result base r b h k =
    let e : r * b ^ 0 ≡ r = omega (arith, ap (λ (t : ℕ). r * t) (pow-zero b)) in rw e h
inverse_loop-Represents (suc rounds) bit_index result base r b h k =
    let bit = exponent_bit bit_index in
    let small : bit < 2 = omega arith in
    let squared = multiply-Represents base base b b k k in
    let step = power_step r b bit (exponent_from rounds (bit_index + 1)) small in
    let onward = λ (next : List ℕ) (n : ℕ) (m : Represents next (n % P)).
      inverse_loop-Represents rounds (bit_index + 1) next (field_square base) n (b * b) m squared in
    elim (Bool-cases (bit == 0)) [
      | inl t ↦ rw t (rw (sym step, t) (onward result r h))
      | inr f ↦ rw f (
          rw (sym step, f)
            (onward (field_multiply result base) (r * b) (multiply-Represents result base r b h k)))
    ]

-- `field_inverse` raises an element below the prime to the power of the prime less two, modulo the
-- prime 2^256 - 2^32 - 977, and returns four limbs below the prime.
pub field_inverse-Represents :
    (xs : List ℕ)
    → IsReduced xs
    → (fermat_exponent + 2 ≡ P) × Represents (field_inverse xs) (value xs ^ fermat_exponent % P)
unfolding field_inverse
field_inverse-Represents xs h =
    let (one, is_one) = one-Represents in
    let (out, power) =
      inverse_loop-Represents 256 0 (field_from_small 1) xs 1 (value xs) (one, is_one)
        (itself xs h) in
    let whole = ap (λ (t : ℕ). value xs ^ t) exponent_whole in
    let once : 1 * value xs ^ exponent_from 256 0 ≡ value xs ^ fermat_exponent =
      omega (arith, whole) in
    (fermat_exponent_below, (out, power ∙ ap (λ (t : ℕ). t % P) once))
