-- ===== src/Chain/Arithmetic.antt =====
-- The field operations of native/src/cuda_chain.cuh as arithmetic modulo the prime.
use tron_wallet_searcher.Common.{
  ℕ, zero, suc, ◌+◌, ◌-◌, ◌*◌, ◌/◌, ◌%◌, ◌^◌, ◌≡◌, ◌<◌, ◌≤◌, refl, ap, List, [], ◌∷◌, ◌++◌, length,
  All, All-append, length-append, arith, ◌∙◌, Bool-cases, inl, inr, ◌==◌, ==_iff, false, sym,
  bit_or, bit_xor, ap₂,
}
use Prim.Native.Nat.{max, differ, digits, bit_xor-bitwise, bit_or-bitwise}
use tron_wallet_searcher.Common.Words.{IsU64, zero-bit_or}
use tron_wallet_searcher.Chain.{
  add_raw, subtract_raw, prime, field_is_zero, or_limbs, differences, field_equal, field_add,
  field_subtract, field_negate, field_multiply, field_square, multiply_full, reduce,
}
use tron_wallet_searcher.Chain.Limbs.{
  value, IsWide, P, prime-IsWide, add_limbs-exact, subtract_limbs-exact, value-lt, weight-four,
  value-append,
}
use tron_wallet_searcher.Base58.Value.{le_value-replicate}
use tron_wallet_searcher.Chain.Multiply.{multiply_full-exact}
use tron_wallet_searcher.Chain.Reduce.{reduce-exact}

-- Four limbs below the prime.
abbrev pub IsReduced : List ℕ → Type 0
IsReduced limbs = IsWide 4 limbs × (value limbs < P)

-- The one element that stands for a number below the prime.
abbrev pub Represents : List ℕ → ℕ → Type 0
Represents limbs number = IsReduced limbs × (value limbs ≡ number)

-- A number of one word.
pub small-IsReduced : (n : ℕ) → IsU64 n → IsReduced (n ∷ 0 ∷ 0 ∷ 0 ∷ [])
small-IsReduced n fits =
    let z : IsU64 0 = omega arith in ((refl, (fits, (z, (z, (z, tt))))), omega arith)

reduced :
    (xs : List ℕ) (number : ℕ)
    → IsWide 8 xs
    → value xs ≡ number
    → Represents (reduce xs) (number % P)
reduced xs number wide same =
    let (out, sum) = reduce-exact xs wide in
    let total = sum ∙ ap (λ (t : ℕ). t % P) same in ((out, omega (arith, total)), total)

carried_sum :
    (low : List ℕ) (carry : ℕ)
    → IsWide 4 low
    → carry ≤ 1
    → IsWide 8 (low ++ carry ∷ 0 ∷ 0 ∷ 0 ∷ [])
      × (value (low ++ carry ∷ 0 ∷ 0 ∷ 0 ∷ []) ≡ value low + 2 ^ 256 * carry)
carried_sum low carry (four, h) one =
    let z : IsU64 0 = omega arith in
    let c : IsU64 carry = omega (arith, one) in
    (
      (
        omega (arith, length-append low (carry ∷ 0 ∷ 0 ∷ 0 ∷ []), four),
        All-append IsU64 low (carry ∷ 0 ∷ 0 ∷ 0 ∷ []) h (c, (z, (z, (z, tt)))),
      ),
      omega (
        arith,
        value-append low (carry ∷ 0 ∷ 0 ∷ 0 ∷ []),
        ap (λ (t : ℕ). t * value (carry ∷ 0 ∷ 0 ∷ 0 ∷ [])) (weight-four low four),
      ),
    )

pub field_add-Represents :
    (xs ys : List ℕ)
    → IsReduced xs
    → IsReduced ys
    → Represents (field_add xs ys) ((value xs + value ys) % P)
unfolding field_add add_raw
field_add-Represents xs ys (wide, small) (also, below) =
    let (sum, low, one) =
      add_limbs-exact xs ys 0 (omega (arith, wide.0, also.0)) wide.1 also.1 (omega arith) in
    let out = add_raw xs ys in
    let (all, total) = carried_sum out.0 out.1 (omega (arith, low.0, wide.0), low.1) one in
    reduced (out.0 ++ out.1 ∷ 0 ∷ 0 ∷ 0 ∷ []) (value xs + value ys) all
      (omega (arith, sum, total, ap (λ (t : ℕ). t * out.1) (weight-four xs wide.0)))

pub field_multiply-Represents :
    (xs ys : List ℕ)
    → IsReduced xs
    → IsReduced ys
    → Represents (field_multiply xs ys) (value xs * value ys % P)
unfolding field_multiply
field_multiply-Represents xs ys (wide, small) (also, below) =
    let (product, all) = multiply_full-exact xs ys wide also in
    reduced (multiply_full xs ys) (value xs * value ys) all product

pub field_square-Represents :
    (xs : List ℕ) → IsReduced xs → Represents (field_square xs) (value xs * value xs % P)
unfolding field_square
field_square-Represents xs h = field_multiply-Represents xs xs h h

-- The difference of two numbers below the prime, and the borrow.
subtract_raw-exact :
    (xs ys : List ℕ)
    → IsWide 4 xs
    → IsWide 4 ys
    → (value (subtract_raw xs ys).0 + value ys ≡ value xs + 2 ^ 256 * (subtract_raw xs ys).1)
      × IsWide 4 (subtract_raw xs ys).0
      × (value (subtract_raw xs ys).0 < 2 ^ 256)
      × ((subtract_raw xs ys).1 ≤ 1)
unfolding subtract_raw
subtract_raw-exact xs ys wide also =
    let (sum, low, one) =
      subtract_limbs-exact xs ys 0 (omega (arith, wide.0, also.0)) wide.1 also.1 (omega arith) in
    let out = subtract_raw xs ys in
    let four : length out.0 ≡ 4 = omega (arith, low.0, wide.0) in
    (
      omega (arith, sum, ap (λ (t : ℕ). t * out.1) (weight-four xs wide.0)),
      (four, low.1),
      omega (arith, value-lt out.0 low.1, weight-four out.0 four),
      one,
    )

pub field_subtract-Represents :
    (xs ys : List ℕ)
    → IsReduced xs
    → IsReduced ys
    → Represents (field_subtract xs ys) ((value xs + (P - value ys)) % P)
unfolding field_subtract add_raw
field_subtract-Represents xs ys (wide, small) (also, below) =
    let (taken, low, fits, one) = subtract_raw-exact xs ys wide also in
    let out = subtract_raw xs ys in
    let (prime_wide, is_prime) = prime-IsWide in
    let (sum, all, carry) =
      add_limbs-exact out.0 prime 0 (omega (arith, low.0, prime_wide.0)) low.1 prime_wide.1
        (omega arith) in
    let again = add_raw out.0 prime in
    let four : length again.0 ≡ 4 = omega (arith, all.0, low.0) in
    let again_fits = value-lt again.0 all.1 in
    let weights = weight-four again.0 four in
    let placed = ap (λ (t : ℕ). t * again.1) (weight-four out.0 low.0) in
    elim (Bool-cases (out.1 == 0)) [
      | inl t ↦
          let none_left = (==_iff out.1 0).0 t in
          rw (field_subtract, t)
            ((low, omega (arith, taken, none_left, small)), omega (arith, taken, none_left, below))
      | inr f ↦
          let one_left : out.1 ≡ 1 = ground (arith, f, one) in
          let result : value again.0 ≡ value xs + P - value ys = omega (
            arith, taken, one_left, sum, is_prime, again_fits, weights, placed, carry, below, small,
          ) in
          rw (field_subtract, f)
            (
              ((four, all.1), omega (arith, result, taken, one_left, fits)),
              omega (arith, result, taken, one_left, fits, below, small),
            )
    ]

-- `|` and `^` vanish on nothing but zeroes and equal words.
or_digits-zero : (fuel x y : ℕ) → x ≤ fuel → digits (λ b. b) max fuel x y ≡ 0 → (x ≡ 0) × (y ≡ 0)
or_digits-zero zero zero y enough vanish = (refl, vanish)
or_digits-zero zero (suc x) y enough vanish = absurd (omega arith)
or_digits-zero (suc fuel) zero y enough vanish = (refl, vanish)
or_digits-zero (suc fuel) (suc x) y enough vanish =
    let halves = or_digits-zero fuel (suc x / 2) (y / 2) (omega arith) (omega (arith, vanish)) in
    (omega (arith, vanish, halves), omega (arith, vanish, halves))

differ-zero : (x y : ℕ) → differ x y ≡ 0 → x ≡ y
differ-zero zero zero vanish = refl
differ-zero zero (suc y) vanish = absurd (omega (arith, vanish))
differ-zero (suc x) zero vanish = absurd (omega (arith, vanish))
differ-zero (suc x) (suc y) vanish = ap suc (differ-zero x y vanish)

differ-same : (x : ℕ) → differ x x ≡ 0
differ-same zero = refl
differ-same (suc x) = differ-same x

xor_digits-zero : (fuel x y : ℕ) → x ≤ fuel → digits (λ b. b) differ fuel x y ≡ 0 → x ≡ y
xor_digits-zero zero zero y enough vanish = sym vanish
xor_digits-zero zero (suc x) y enough vanish = absurd (omega arith)
xor_digits-zero (suc fuel) zero y enough vanish = sym vanish
xor_digits-zero (suc fuel) (suc x) y enough vanish =
    let halves = xor_digits-zero fuel (suc x / 2) (y / 2) (omega arith) (omega (arith, vanish)) in
    let parity = differ-zero (suc x % 2) (y % 2) (omega (arith, vanish)) in
    omega (arith, halves, parity)

xor_digits-same : (fuel x : ℕ) → x ≤ fuel → digits (λ b. b) differ fuel x x ≡ 0
xor_digits-same zero zero enough = refl
xor_digits-same zero (suc x) enough = absurd (omega arith)
xor_digits-same (suc fuel) zero enough = refl
xor_digits-same (suc fuel) (suc x) enough =
    omega (arith, xor_digits-same fuel (suc x / 2) (omega arith), differ-same (suc x % 2))

bit_or-zeroes : (x y : ℕ) → bit_or x y ≡ 0 → (x ≡ 0) × (y ≡ 0)
bit_or-zeroes x y vanish = or_digits-zero x x y (omega arith) (sym (bit_or-bitwise x y) ∙ vanish)

bit_xor-same : (x : ℕ) → bit_xor x x ≡ 0
bit_xor-same x = bit_xor-bitwise x x ∙ xor_digits-same x x (omega arith)

bit_xor-zero : (x y : ℕ) → bit_xor x y ≡ 0 → x ≡ y
bit_xor-zero x y vanish = xor_digits-zero x x y (omega arith) (sym (bit_xor-bitwise x y) ∙ vanish)

or_limbs-zero : (xs : List ℕ) → or_limbs xs ≡ 0 → value xs ≡ 0
unfolding or_limbs
or_limbs-zero [] vanish = refl
or_limbs-zero (x ∷ xs) vanish =
    let (front, rest) = bit_or-zeroes x (or_limbs xs) vanish in
    omega (arith, front, or_limbs-zero xs rest)

zero-or_limbs : (xs : List ℕ) → value xs ≡ 0 → or_limbs xs ≡ 0
unfolding or_limbs
zero-or_limbs [] vanish = refl
zero-or_limbs (x ∷ xs) vanish =
    let front : x ≡ 0 = omega (arith, vanish) in
    let rest = zero-or_limbs xs (omega (arith, vanish)) in rw (front, rest) (zero-bit_or 0)

-- The tests of the code are tests of the numbers.
pub field_is_zero_lem : (xs : List ℕ) → field_is_zero xs ≡ (value xs == 0)
unfolding field_is_zero
field_is_zero_lem xs = ground (arith, or_limbs-zero xs, zero-or_limbs xs)

differences-zero :
    (xs ys : List ℕ) → length xs ≡ length ys → or_limbs (differences xs ys) ≡ 0 → xs ≡ ys
unfolding or_limbs differences
differences-zero [] [] same vanish = refl
differences-zero [] (y ∷ ys) same vanish = absurd (omega arith)
differences-zero (x ∷ xs) [] same vanish = absurd (omega arith)
differences-zero (x ∷ xs) (y ∷ ys) same vanish =
    let (front, rest) = bit_or-zeroes (bit_xor x y) (or_limbs (differences xs ys)) vanish in
    ap₂ (λ u us. u ∷ us) (bit_xor-zero x y front) (differences-zero xs ys (omega arith) rest)

same-differences : (xs : List ℕ) → or_limbs (differences xs xs) ≡ 0
unfolding or_limbs differences
same-differences [] = refl
same-differences (x ∷ xs) = rw (bit_xor-same x, same-differences xs) (zero-bit_or 0)

-- Limbs of one number are the same limbs.
pub value-injective :
    (xs ys : List ℕ)
    → length xs ≡ length ys
    → All IsU64 xs
    → All IsU64 ys
    → value xs ≡ value ys
    → xs ≡ ys
value-injective [] [] same h k equal = refl
value-injective [] (y ∷ ys) same h k equal = absurd (omega arith)
value-injective (x ∷ xs) [] same h k equal = absurd (omega arith)
value-injective (x ∷ xs) (y ∷ ys) same h k equal =
    ap₂ (λ u us. u ∷ us) (omega (arith, equal, h.0, k.0))
      (value-injective xs ys (omega arith) h.1 k.1 (omega (arith, equal, h.0, k.0)))

pub field_equal_lem :
    (xs ys : List ℕ) → IsReduced xs → IsReduced ys → field_equal xs ys ≡ (value xs == value ys)
unfolding field_equal
field_equal_lem xs ys (wide, small) (also, below) =
    let same : length xs ≡ length ys = omega (arith, wide.0, also.0) in
    elim (Bool-cases (value xs == value ys)) [
      | inl t ↦
          let equal =
            value-injective xs ys same wide.1 also.1 ((==_iff (value xs) (value ys)).0 t) in
          rw (t, sym equal, same-differences xs) refl
      | inr f ↦
          let backward : or_limbs (differences xs ys) ≡ 0 → value xs ≡ value ys =
            λ vanish. ap value (differences-zero xs ys same vanish) in
          rw f (ground (arith, f, backward))
    ]

pub field_negate-Represents :
    (xs : List ℕ) → IsReduced xs → Represents (field_negate xs) ((P - value xs) % P)
unfolding field_negate
field_negate-Represents xs (wide, small) =
    let (prime_wide, is_prime) = prime-IsWide in
    let (taken, low, fits, one) = subtract_raw-exact prime xs prime_wide wide in
    let z : IsU64 0 = omega arith in
    elim (Bool-cases (field_is_zero xs)) [
      | inl t ↦
          let none = (==_iff (value xs) 0).0 (sym (field_is_zero_lem xs) ∙ t) in
          rw (field_negate, t)
            (
              ((refl, (z, (z, (z, (z, tt))))), omega arith),
              omega (arith, none, le_value-replicate (2 ^ 64) 4),
            )
      | inr f ↦
          let some_value : (value xs == 0) ≡ false = sym (field_is_zero_lem xs) ∙ f in
          rw (field_negate, f)
            (
              (low, ground (arith, taken, is_prime, fits, one, some_value)),
              ground (arith, taken, is_prime, fits, one, some_value),
            )
    ]

-- The four operations, and the two tests, on two elements below the prime.
abbrev pub IsArithmetic : List ℕ → List ℕ → Type 0
IsArithmetic xs ys =
    Represents (field_add xs ys) ((value xs + value ys) % P)
    × Represents (field_subtract xs ys) ((value xs + (P - value ys)) % P)
    × Represents (field_negate xs) ((P - value xs) % P)
    × Represents (field_multiply xs ys) (value xs * value ys % P)
    × (field_is_zero xs ≡ (value xs == 0))
    × (field_equal xs ys ≡ (value xs == value ys))

-- On elements of four 64-bit limbs below the prime, `field_add`, `field_subtract`, `field_negate`
-- and `field_multiply` return four limbs below the prime that stand for the sum, the difference,
-- the negative and the product modulo 2^256 - 2^32 - 977, and `field_is_zero` and `field_equal`
-- decide whether the numbers are zero and equal.
pub field_operations-IsArithmetic :
    (xs ys : List ℕ) → IsReduced xs → IsReduced ys → IsArithmetic xs ys
field_operations-IsArithmetic xs ys h k = (
  field_add-Represents xs ys h k,
  field_subtract-Represents xs ys h k,
  field_negate-Represents xs h,
  field_multiply-Represents xs ys h k,
  field_is_zero_lem xs,
  field_equal_lem xs ys h k,
)
