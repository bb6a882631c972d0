-- ===== src/PrefixFilter/Integer.antt =====
-- The arithmetic of native/src/cuda_runtime.cu on integers of 25 bytes.
use native.Mathlib.Nat.{pow-suc, pow-zero, mul-le-mul}
use tron_wallet_searcher.Common.{
  ℕ, zero, suc, ◌+◌, ◌-◌, ◌*◌, ◌/◌, ◌%◌, ◌^◌, ◌≤◌, ◌<◌, ◌≡◌, refl, ap, subst, ◌∙◌, List, [], ◌∷◌,
  Bool, true, false, ◌==◌, ==_iff, length, All, ok, Result, arith, Bool-cases, inl, inr,
}
use tron_wallet_searcher.Common.Words.{u8, u32, IsByte}
use tron_wallet_searcher.Base58.Value.{be_value, be_value-acc, be_value-lt}
use tron_wallet_searcher.PrefixFilter.{
  multiply_loop, host_multiply_small, add_loop, host_add_small, subtract_loop, host_subtract_one,
  zero_integer,
}

-- The number of a list of bytes, the most significant first.
abbrev pub number : List ℕ → ℕ
number = be_value 256 0

pub number-cons : (x : ℕ) (xs : List ℕ) → number (x ∷ xs) ≡ x * 256 ^ length xs + number xs
number-cons x xs =
    be_value-acc 256 (0 * 256 + x) xs ∙ ap (λ (t : ℕ). t * 256 ^ length xs + number xs) (plain x)
  where
    plain : (y : ℕ) → 0 * 256 + y ≡ y
    plain y = omega arith

-- `xs` and the carry together are the number `total`.
pub record IsSum (total : ℕ) (xs ys : List ℕ) (carry : ℕ) : Type 0 where
  pub holds : number ys + carry * 256 ^ length xs ≡ total
  pub each : All IsByte ys
  pub size : length ys ≡ length xs

-- One more byte in front, of weight `k`.
IsSum-cons :
    (total k x : ℕ) (xs ys : List ℕ) (carry : ℕ)
    → IsSum total xs ys carry
    → IsSum (k * 256 ^ length xs + total) (x ∷ xs) (u8 (k + carry) ∷ ys) ((k + carry) / 256)
IsSum-cons total k x xs ys carry s =
    let weight : 256 ^ length ys ≡ 256 ^ length xs = ap (λ (n : ℕ). 256 ^ n) s.size in
    let split : (k + carry) % 256 + (k + carry) / 256 * 256 ≡ k + carry = omega arith in
    record {
      holds = omega (
        arith,
        s.holds,
        rw weight at (number-cons (u8 (k + carry)) ys),
        ap (λ (t : ℕ). (k + carry) / 256 * t) (pow-suc 256 (length xs)),
        ap (λ (t : ℕ). t * 256 ^ length xs) split,
      );
      each = (omega arith, s.each);
      size = ap suc s.size;
    }

multiply_loop-IsSum :
    (xs : List ℕ) (m : ℕ)
    → All IsByte xs
    → m ≤ 58
    → IsSum (number xs * m) xs (multiply_loop xs m).0 (multiply_loop xs m).1
      × ((multiply_loop xs m).1 ≤ 58)
unfolding multiply_loop
multiply_loop-IsSum [] m h b = (record { holds = omega arith; each = tt; size = refl }, omega arith)
multiply_loop-IsSum (x ∷ xs) m h b =
    let (rest, small) = multiply_loop-IsSum xs m h.1 b in
    let carry = (multiply_loop xs m).1 in
    let byte : x ≤ 255 = omega (arith, h.0) in
    let bound : x * m ≤ 255 * 58 = mul-le-mul byte b in
    let fits : u32 (x * m + carry) ≡ x * m + carry = omega arith in
    let step = IsSum-cons (number xs * m) (x * m) x xs _ carry rest in
    let total : x * m * 256 ^ length xs + number xs * m ≡ number (x ∷ xs) * m =
      omega (arith, ap (λ (t : ℕ). t * m) (number-cons x xs)) in
    (
      rw fits (
          subst
            (λ t.
              IsSum t (x ∷ xs) (u8 (x * m + carry) ∷ (multiply_loop xs m).0)
                ((x * m + carry) / 256))
            total step),
      rw fits (omega arith),
    )

add_loop-IsSum :
    (xs : List ℕ) (a : ℕ)
    → All IsByte xs
    → a ≤ 58
    → IsSum (number xs + a) xs (add_loop xs a).0 (add_loop xs a).1 × ((add_loop xs a).1 ≤ 58)
unfolding add_loop
add_loop-IsSum [] a h b = (
  record { holds = omega (arith, ap (λ (t : ℕ). a * t) (pow-zero 256)); each = tt; size = refl },
  b,
)
add_loop-IsSum (x ∷ xs) a h b =
    let (rest, small) = add_loop-IsSum xs a h.1 b in
    let carry = (add_loop xs a).1 in
    let fits : u32 (x + carry) ≡ x + carry = omega (arith, h.0) in
    let step = IsSum-cons (number xs + a) x x xs _ carry rest in
    let total : x * 256 ^ length xs + (number xs + a) ≡ number (x ∷ xs) + a =
      omega (arith, number-cons x xs) in
    let sum =
      subst (λ t. IsSum t (x ∷ xs) (u8 (x + carry) ∷ (add_loop xs a).0) ((x + carry) / 256)) total
        step in
    elim (Bool-cases (carry == 0)) [
      | inl done ↦
          let none_left = (==_iff carry 0).0 done in
          let byte : u8 (x + carry) ≡ x = omega (arith, h.0) in
          let over : (x + carry) / 256 ≡ 0 = omega (arith, h.0) in
          rw done (rw (byte, over) at sum, omega arith)
      | inr more ↦ rw (more, fits) (sum, omega (arith, h.0))
    ]

abbrev borrowed : Bool → ℕ
borrowed true = 1
borrowed false = 0

-- `ys` is `xs` minus one; the borrow counts for the weight in front of the list.
record IsLess (xs ys : List ℕ) (borrow : Bool) : Type 0 where
  holds : number ys + 1 ≡ number xs + borrowed borrow * 256 ^ length xs
  each : All IsByte ys
  size : length ys ≡ length xs

-- A byte `z` in front of the difference, with a borrow `out` of its own.
IsLess-cons :
    (x z : ℕ) (xs ys : List ℕ) (borrow out : Bool)
    → IsByte z
    → z + borrowed borrow ≡ x + borrowed out * 256
    → IsLess xs ys borrow
    → IsLess (x ∷ xs) (z ∷ ys) out
IsLess-cons x z xs ys borrow out hz e s =
    let weight : 256 ^ length ys ≡ 256 ^ length xs = ap (λ (n : ℕ). 256 ^ n) s.size in
    record {
      holds = omega (
        arith,
        s.holds,
        rw weight at (number-cons z ys),
        number-cons x xs,
        ap (λ (t : ℕ). t * 256 ^ length xs) e,
        ap (λ (t : ℕ). borrowed out * t) (pow-suc 256 (length xs)),
      );
      each = (hz, s.each);
      size = ap suc s.size;
    }

subtract_loop-IsLess :
    (xs : List ℕ) → All IsByte xs → IsLess xs (subtract_loop xs).0 (subtract_loop xs).1
unfolding subtract_loop
subtract_loop-IsLess [] h = record { holds = omega (arith, pow-zero 256); each = tt; size = refl }
subtract_loop-IsLess (x ∷ xs) h =
    let rest = subtract_loop-IsLess xs h.1 in
    elim (Bool-cases (subtract_loop xs).1) [
      | inr none_left ↦
          let rest' = rw none_left at rest in
          rw none_left (IsLess-cons x x xs (subtract_loop xs).0 false false h.0 (omega arith) rest')
      | inl more ↦
          let rest' = rw more at rest in
          elim (Bool-cases (x == 0)) [
            | inl at_zero ↦
                let z : x ≡ 0 = (==_iff x 0).0 at_zero in
                rw (more, at_zero)
                  (IsLess-cons x 0xff xs (subtract_loop xs).0 true true (omega arith) (omega arith)
                    rest')
            | inr positive ↦
                let p : 0 < x = ground arith in
                rw (more, positive)
                  (IsLess-cons x (x - 1) xs (subtract_loop xs).0 true false (omega (arith, h.0))
                    (omega arith) rest')
          ]
    ]

-- A 25-byte integer that holds a number.
pub record IsInteger (value : ℕ) (xs : List ℕ) : Type 0 where
  pub holds : number xs ≡ value
  pub each : All IsByte xs
  pub size : length xs ≡ 25

-- What an operation returns where it does not throw.
abbrev pub Gives : Result (List ℕ) → ℕ → Type 0
Gives r value = (xs : List ℕ) × (r ≡ ok xs) × IsInteger value xs

pub zero-IsInteger : IsInteger 0 zero_integer
unfolding zero_integer
zero-IsInteger = record { holds = refl; each = omega arith; size = refl }

no_carry : (c w v t : ℕ) → v + c * w ≡ t → t < w → c ≡ 0
no_carry zero w v t e h = refl
no_carry (suc c) w v t e h = absurd (grind arith)

IsSum-IsInteger :
    (total : ℕ) (xs ys : List ℕ) (carry : ℕ)
    → length xs ≡ 25
    → total < 256 ^ 25
    → IsSum total xs ys carry
    → (carry ≡ 0) × IsInteger total ys
IsSum-IsInteger total xs ys carry size fits s =
    let sum : number ys + carry * 256 ^ 25 ≡ total = rw size at s.holds in
    let done = no_carry carry (256 ^ 25) (number ys) total sum fits in
    (done, record { holds = omega arith; each = s.each; size = s.size ∙ size })

pub host_multiply_small-Gives :
    (value m : ℕ) (xs : List ℕ)
    → m ≤ 58
    → value * m < 256 ^ 25
    → IsInteger value xs
    → Gives (host_multiply_small xs m) (value * m)
unfolding host_multiply_small
host_multiply_small-Gives value m xs b fits i =
    let (sum, small) = multiply_loop-IsSum xs m i.each b in
    let (done, int) =
      IsSum-IsInteger (value * m) xs (multiply_loop xs m).0 (multiply_loop xs m).1 i.size fits
        (subst (λ v. IsSum (v * m) xs (multiply_loop xs m).0 (multiply_loop xs m).1) i.holds sum) in
    ((multiply_loop xs m).0, rw done, int)

pub host_add_small-Gives :
    (value a : ℕ) (xs : List ℕ)
    → a ≤ 58
    → value + a < 256 ^ 25
    → IsInteger value xs
    → Gives (host_add_small xs a) (value + a)
unfolding host_add_small
host_add_small-Gives value a xs b fits i =
    let (sum, small) = add_loop-IsSum xs a i.each b in
    let (done, int) =
      IsSum-IsInteger (value + a) xs (add_loop xs a).0 (add_loop xs a).1 i.size fits
        (subst (λ v. IsSum (v + a) xs (add_loop xs a).0 (add_loop xs a).1) i.holds sum) in
    ((add_loop xs a).0, rw done, int)

pub host_subtract_one-Gives :
    (value : ℕ) (xs : List ℕ) → IsInteger (suc value) xs → Gives (host_subtract_one xs) value
unfolding host_subtract_one
host_subtract_one-Gives value xs i =
    let less = subtract_loop-IsLess xs i.each in
    let below = be_value-lt 256 (subtract_loop xs).0 less.each in
    let weight : 256 ^ length (subtract_loop xs).0 ≡ 256 ^ length xs =
      ap (λ (n : ℕ). 256 ^ n) less.size in
    elim (Bool-cases (subtract_loop xs).1) [
      | inr fine ↦ (
        (subtract_loop xs).0,
        rw fine,
        record {
          holds = omega (arith, rw fine at less.holds, i.holds);
          each = less.each;
          size = less.size ∙ i.size;
        },
      )
      | inl under ↦ absurd (omega (arith, rw under at less.holds, i.holds))
    ]
