-- ===== src/Chain/Reduce.antt =====
-- The reduction of eight words below the prime: `reduce` of native/src/cuda_chain.cuh.
use tron_wallet_searcher.Common.{
  ℕ, zero, suc, ◌+◌, ◌*◌, ◌/◌, ◌%◌, ◌^◌, ◌≡◌, ◌<◌, ◌≤◌, refl, ap, List, [], ◌∷◌, length, All,
  get_or, arith, Bool-cases, inl, inr, leb,
}
use tron_wallet_searcher.Common.Words.{u64, IsU64}
use tron_wallet_searcher.Chain.{
  sum_of, carry_of, add_three, fold_high, ripple, fold_top, final_loop, fold_carry, reduce,
  reduction_constant, subtract_raw, prime,
}
use tron_wallet_searcher.Chain.Limbs.{
  value, weight, IsWide, sum_of-exact, carry_of-le, P, prime-IsWide,
  greater_than_or_equal_prime_lem, subtract_limbs-exact, value-lt, weight-four,
}

-- Eight words, by their places.
eight_words :
    (xs : List ℕ)
    → length xs ≡ 8
    → xs
      ≡ get_or xs 0 0
        ∷ get_or xs 1 0
        ∷ get_or xs 2 0
        ∷ get_or xs 3 0
        ∷ get_or xs 4 0
        ∷ get_or xs 5 0
        ∷ get_or xs 6 0
        ∷ get_or xs 7 0
        ∷ []
eight_words (a ∷ b ∷ c ∷ d ∷ e ∷ f ∷ g ∷ h ∷ []) eight = refl
eight_words [] eight = absurd (omega arith)
eight_words (a ∷ []) eight = absurd (omega arith)
eight_words (a ∷ b ∷ []) eight = absurd (omega arith)
eight_words (a ∷ b ∷ c ∷ []) eight = absurd (omega arith)
eight_words (a ∷ b ∷ c ∷ d ∷ []) eight = absurd (omega arith)
eight_words (a ∷ b ∷ c ∷ d ∷ e ∷ []) eight = absurd (omega arith)
eight_words (a ∷ b ∷ c ∷ d ∷ e ∷ f ∷ []) eight = absurd (omega arith)
eight_words (a ∷ b ∷ c ∷ d ∷ e ∷ f ∷ g ∷ []) eight = absurd (omega arith)
eight_words (a ∷ b ∷ c ∷ d ∷ e ∷ f ∷ g ∷ h ∷ i ∷ rest) eight = absurd (omega arith)

five_words :
    (xs : List ℕ)
    → length xs ≡ 5
    → xs ≡ get_or xs 0 0 ∷ get_or xs 1 0 ∷ get_or xs 2 0 ∷ get_or xs 3 0 ∷ get_or xs 4 0 ∷ []
five_words (a ∷ b ∷ c ∷ d ∷ e ∷ []) five = refl
five_words [] five = absurd (omega arith)
five_words (a ∷ []) five = absurd (omega arith)
five_words (a ∷ b ∷ []) five = absurd (omega arith)
five_words (a ∷ b ∷ c ∷ []) five = absurd (omega arith)
five_words (a ∷ b ∷ c ∷ d ∷ []) five = absurd (omega arith)
five_words (a ∷ b ∷ c ∷ d ∷ e ∷ f ∷ rest) five = absurd (omega arith)

add_three-exact :
    (partial x y z : ℕ)
    → IsU64 partial
    → IsU64 x
    → IsU64 y
    → IsU64 z
    → ((add_three partial x y z).0 + 2 ^ 64 * (add_three partial x y z).1 ≡ partial + x + y + z)
      × IsU64 (add_three partial x y z).0
      × ((add_three partial x y z).1 ≤ 3)
unfolding add_three
add_three-exact partial x y z small first second third =
    let one = sum_of-exact partial x small first in
    let two = sum_of-exact (sum_of partial x) y (omega arith) second in
    let three = sum_of-exact (sum_of (sum_of partial x) y) z (omega arith) third in
    let few = carry_of-le partial x in
    let few_more = carry_of-le (sum_of partial x) y in
    let last = carry_of-le (sum_of (sum_of partial x) y) z in
    (omega (arith, one, two, three), omega arith, omega (arith, few, few_more, last))

-- Five words, the last of them small.
abbrev IsAccumulator : List ℕ → Type 0
IsAccumulator acc = IsWide 5 acc × (get_or acc 4 0 ≤ 0x1000003d4)

abbrev low_words : List ℕ → ℕ
low_words xs = value (get_or xs 0 0 ∷ get_or xs 1 0 ∷ get_or xs 2 0 ∷ get_or xs 3 0 ∷ [])

abbrev high_words : List ℕ → ℕ
high_words xs = value (get_or xs 4 0 ∷ get_or xs 5 0 ∷ get_or xs 6 0 ∷ get_or xs 7 0 ∷ [])

get_or-IsU64 : (xs : List ℕ) (i : ℕ) → All IsU64 xs → IsU64 (get_or xs i 0)
get_or-IsU64 [] i h = omega arith
get_or-IsU64 (x ∷ xs) zero h = h.0
get_or-IsU64 (x ∷ xs) (suc i) h = get_or-IsU64 xs i h.1

fold_high-exact :
    (xs : List ℕ)
    → All IsU64 xs
    → (value (fold_high xs) ≡ low_words xs + reduction_constant * high_words xs)
      × IsAccumulator (fold_high xs)
unfolding fold_high
fold_high-exact xs h =
    let bound = λ (i : ℕ). get_or-IsU64 xs i h in
    let low = λ (i : ℕ). u64 (get_or xs i 0 * reduction_constant) in
    let high = λ (i : ℕ). get_or xs i 0 * reduction_constant / 2 ^ 64 in
    let s0 = sum_of-exact (get_or xs 0 0) (low 4) (bound 0) (omega arith) in
    let c0 = carry_of (get_or xs 0 0) (low 4) in
    let c0_small = carry_of-le (get_or xs 0 0) (low 4) in
    let r1 = add_three (get_or xs 1 0) (low 5) (high 4) c0 in
    let (s1, w1, c1) =
      add_three-exact (get_or xs 1 0) (low 5) (high 4) c0 (bound 1) (omega arith)
        (omega (arith, bound 4)) (omega (arith, c0_small)) in
    let r2 = add_three (get_or xs 2 0) (low 6) (high 5) r1.1 in
    let (s2, w2, c2) =
      add_three-exact (get_or xs 2 0) (low 6) (high 5) r1.1 (bound 2) (omega arith)
        (omega (arith, bound 5)) (omega (arith, c1)) in
    let r3 = add_three (get_or xs 3 0) (low 7) (high 6) r2.1 in
    let (s3, w3, c3) =
      add_three-exact (get_or xs 3 0) (low 7) (high 6) r2.1 (bound 3) (omega arith)
        (omega (arith, bound 6)) (omega (arith, c2)) in
    let b7 = bound 7 in
    (
      omega (arith, s0, s1, s2, s3, b7, c3),
      ((refl, (omega arith, (w1, (w2, (w3, (omega (arith), tt)))))), omega (arith, b7, c3)),
    )

fold_top-exact :
    (acc : List ℕ)
    → IsAccumulator acc
    → (value (fold_top acc).0 + 2 ^ 256 * (fold_top acc).1
        ≡ low_words acc + reduction_constant * get_or acc 4 0)
      × IsWide 4 (fold_top acc).0
      × ((fold_top acc).1 ≤ 1)
unfolding fold_top ripple
fold_top-exact acc ((five, h), small) =
    let bound = λ (i : ℕ). get_or-IsU64 acc i h in
    let folded = get_or acc 4 0 * reduction_constant in
    let high = folded / 2 ^ 64 in
    let s0 = sum_of-exact (get_or acc 0 0) (u64 folded) (bound 0) (omega arith) in
    let c0 = carry_of (get_or acc 0 0) (u64 folded) in
    let c0_small = carry_of-le (get_or acc 0 0) (u64 folded) in
    let partial = sum_of (get_or acc 1 0) high in
    let p1 = sum_of-exact (get_or acc 1 0) high (bound 1) (omega (arith, small)) in
    let s1 = sum_of-exact partial c0 (omega arith) (omega (arith, c0_small)) in
    let c1 = carry_of (get_or acc 1 0) high + carry_of partial c0 in
    let c1_small : c1 ≤ 1 = omega (arith, p1, s1, small, c0_small, bound 1) in
    let s2 = sum_of-exact (get_or acc 2 0) c1 (bound 2) (omega (arith, c1_small)) in
    let c2 = carry_of (get_or acc 2 0) c1 in
    let c2_small = carry_of-le (get_or acc 2 0) c1 in
    let s3 = sum_of-exact (get_or acc 3 0) c2 (bound 3) (omega (arith, c2_small)) in
    (
      omega (arith, s0, p1, s1, s2, s3),
      (refl, (omega arith, (omega arith, (omega arith, (omega arith, tt))))),
      carry_of-le (get_or acc 3 0) c2,
    )

-- A carry of one is added where the words have room for it.
final_loop-exact :
    (xs : List ℕ) (carry : ℕ)
    → All IsU64 xs
    → carry ≤ 1
    → value xs + carry < weight xs
    → (value (final_loop xs carry) ≡ value xs + carry) × IsWide (length xs) (final_loop xs carry)
unfolding final_loop
final_loop-exact [] carry h one room = (omega (arith, room), (refl, tt))
final_loop-exact (x ∷ xs) zero h one room = (omega arith, (refl, h))
final_loop-exact (x ∷ xs) (suc zero) h one room =
    let sum = sum_of-exact x 1 h.0 (omega arith) in
    let (rest, wide) =
      final_loop-exact xs (carry_of x 1) h.1 (carry_of-le x 1) (omega (arith, sum, room)) in
    (omega (arith, sum, rest), (omega (arith, wide.0), (omega arith, wide.1)))
final_loop-exact (x ∷ xs) (suc (suc carry)) h one room = absurd (omega arith)

fold_carry-exact :
    (xs : List ℕ) (carry : ℕ)
    → IsWide 4 xs
    → carry ≤ 1
    → (carry ≡ 1 → value xs + reduction_constant < weight xs)
    → (value (fold_carry xs carry) ≡ value xs + reduction_constant * carry)
      × IsWide 4 (fold_carry xs carry)
unfolding fold_carry
fold_carry-exact [] carry wide one room = absurd (omega (arith, wide.0))
fold_carry-exact (x ∷ xs) zero wide one room = (omega arith, wide)
fold_carry-exact (x ∷ xs) (suc zero) wide one room =
    let sum = sum_of-exact x reduction_constant wide.1.0 (omega arith) in
    let carry = carry_of x reduction_constant in
    let (rest, (same, all)) =
      final_loop-exact xs carry wide.1.1 (carry_of-le x reduction_constant)
        (omega (arith, sum, room refl)) in
    (omega (arith, sum, rest), (omega (arith, same, wide.0), (omega arith, all)))
fold_carry-exact (x ∷ xs) (suc (suc carry)) wide one room = absurd (omega arith)

-- The words before the last subtraction: congruent to the input.
fold_all :
    (xs : List ℕ)
    → IsWide 8 xs
    → (value (fold_carry (fold_top (fold_high xs)).0 (fold_top (fold_high xs)).1)
          + P * (high_words xs + get_or (fold_high xs) 4 0 + (fold_top (fold_high xs)).1)
        ≡ value xs)
      × IsWide 4 (fold_carry (fold_top (fold_high xs)).0 (fold_top (fold_high xs)).1)
fold_all xs (eight, h) =
    let (first, acc) = fold_high-exact xs h in
    let (second, wide, one) = fold_top-exact (fold_high xs) acc in
    let bound = λ (i : ℕ). get_or-IsU64 (fold_high xs) i acc.0.1 in
    let four = weight-four (fold_top (fold_high xs)).0 wide.0 in
    let all_words : value xs ≡ low_words xs + 2 ^ 256 * high_words xs =
      omega (arith, ap value (eight_words xs eight)) in
    let five : value (fold_high xs)
        ≡ low_words (fold_high xs) + 2 ^ 256 * get_or (fold_high xs) 4 0 =
      omega (arith, ap value (five_words (fold_high xs) acc.0.0)) in
    let (third, wide_too) =
      fold_carry-exact (fold_top (fold_high xs)).0 (fold_top (fold_high xs)).1 wide one
        (λ e. omega (arith, second, e, four, bound 0, bound 1, bound 2, bound 3, acc.1)) in
    (omega (arith, first, second, third, all_words, five), wide_too)

-- What `reduce` returns: four limbs below the prime, and how often the prime was taken off.
pub reduce-exact :
    (xs : List ℕ) → IsWide 8 xs → IsWide 4 (reduce xs) × (value (reduce xs) ≡ value xs % P)
unfolding reduce subtract_raw
reduce-exact xs wide =
    let (words, last) = (fold_top (fold_high xs)) in
    let output = fold_carry (fold_top (fold_high xs)).0 (fold_top (fold_high xs)).1 in
    let (sum, output_wide) = fold_all xs wide in
    let below = value-lt output output_wide.1 in
    let four = weight-four output output_wide.0 in
    let (prime_wide, is_prime) = prime-IsWide in
    let test = greater_than_or_equal_prime_lem output output_wide in
    let (taken, taken_wide, one) =
      subtract_limbs-exact output prime 0 (omega (arith, output_wide.0, prime_wide.0)) output_wide.1
        prime_wide.1 (omega arith) in
    let rest = subtract_raw output prime in
    let rest_below = value-lt rest.0 taken_wide.1 in
    let rest_four = weight-four rest.0 (omega (arith, taken_wide.0, output_wide.0)) in
    elim (Bool-cases (leb P (value output))) [
      | inl t ↦
          rw (reduce, test, t)
            (
              (omega (arith, taken_wide.0, output_wide.0), taken_wide.1),
              ground (arith, taken, is_prime, sum, below, four, one, rest_below, rest_four),
            )
      | inr f ↦ rw (reduce, test, f) (output_wide, ground (arith, sum))
    ]
