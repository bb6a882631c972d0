-- ===== src/Chain/Limbs.antt =====
-- The numbers that limbs stand for, and what sums, differences and comparisons of limbs are:
-- native/src/cuda_chain.cuh.
use tron_wallet_searcher.Common.{
  ℕ, ◌+◌, ◌*◌, ◌^◌, ◌≡◌, ◌<◌, ◌≤◌, refl, ap, List, [], ◌∷◌, ◌++◌, Bool, length, All, ◌==◌, Option,
  none, some, arith, leb, ◌≢◌, subst, ◌∙◌, inl, inr, Bool-cases, Option-cases, ==_iff,
}
use tron_wallet_searcher.Common.Words.{u64, IsU64}
use tron_wallet_searcher.Base58.Value.{le_value}
use tron_wallet_searcher.Chain.{
  sum_of, carry_of, add_with_carry, subtract_with_borrow, add_limbs, subtract_limbs, prime,
  greater_loop, greater_than_or_equal_prime,
}

abbrev pub value : List ℕ → ℕ
value limbs = le_value (2 ^ 64) limbs

-- The weight of the place behind the limbs.
abbrev pub weight : List ℕ → ℕ
weight [] = 1
weight (x ∷ xs) = 2 ^ 64 * weight xs

abbrev pub IsWide : ℕ → List ℕ → Type 0
IsWide size limbs = (length limbs ≡ size) × All IsU64 limbs

-- Limbs and a word behind them.
abbrev pub total : List ℕ → List ℕ × ℕ → ℕ
total xs result = value result.0 + weight xs * result.1

pub sum_of-exact : (a b : ℕ) → IsU64 a → IsU64 b → sum_of a b + 2 ^ 64 * carry_of a b ≡ a + b
sum_of-exact a b small also = ground arith

pub carry_of-le : (a b : ℕ) → carry_of a b ≤ 1
carry_of-le a b = ground arith

pub add_with_carry-exact :
    (x y carry : ℕ)
    → IsU64 x
    → IsU64 y
    → carry ≤ 1
    → ((add_with_carry x y carry).0 + 2 ^ 64 * (add_with_carry x y carry).1 ≡ x + y + carry)
      × IsU64 (add_with_carry x y carry).0
      × ((add_with_carry x y carry).1 ≤ 1)
unfolding add_with_carry
add_with_carry-exact x y carry small also one =
    let first = sum_of-exact x y small also in
    let next = sum_of-exact (u64 (x + y)) carry (omega arith) (omega arith) in
    (omega (arith, first, next), omega arith, omega (arith, first, next))

pub subtract_with_borrow-exact :
    (x y borrow : ℕ)
    → IsU64 x
    → IsU64 y
    → borrow ≤ 1
    → ((subtract_with_borrow x y borrow).0 + y + borrow
        ≡ x + 2 ^ 64 * (subtract_with_borrow x y borrow).1)
      × IsU64 (subtract_with_borrow x y borrow).0
      × ((subtract_with_borrow x y borrow).1 ≤ 1)
unfolding subtract_with_borrow
subtract_with_borrow-exact x y borrow small also one = (ground arith, omega arith, ground arith)

pub add_limbs-exact :
    (xs ys : List ℕ) (carry : ℕ)
    → length xs ≡ length ys
    → All IsU64 xs
    → All IsU64 ys
    → carry ≤ 1
    → (total xs (add_limbs xs ys carry) ≡ value xs + value ys + carry)
      × IsWide (length xs) (add_limbs xs ys carry).0
      × ((add_limbs xs ys carry).1 ≤ 1)
unfolding add_limbs
add_limbs-exact [] [] carry same h k one = (omega arith, (refl, tt), one)
add_limbs-exact [] (y ∷ ys) carry same h k one = absurd (omega arith)
add_limbs-exact (x ∷ xs) [] carry same h k one = absurd (omega arith)
add_limbs-exact (x ∷ xs) (y ∷ ys) carry same h k one =
    let (limb, small, next) = add_with_carry-exact x y carry h.0 k.0 one in
    let rest = add_limbs-exact xs ys (add_with_carry x y carry).1 (omega arith) h.1 k.1 next in
    (omega (arith, limb, rest.0), (omega (arith, rest.1.0), (small, rest.1.1)), rest.2)

pub subtract_limbs-exact :
    (xs ys : List ℕ) (borrow : ℕ)
    → length xs ≡ length ys
    → All IsU64 xs
    → All IsU64 ys
    → borrow ≤ 1
    → (value (subtract_limbs xs ys borrow).0 + value ys + borrow
        ≡ value xs + weight xs * (subtract_limbs xs ys borrow).1)
      × IsWide (length xs) (subtract_limbs xs ys borrow).0
      × ((subtract_limbs xs ys borrow).1 ≤ 1)
unfolding subtract_limbs
subtract_limbs-exact [] [] borrow same h k one = (omega arith, (refl, tt), one)
subtract_limbs-exact [] (y ∷ ys) borrow same h k one = absurd (omega arith)
subtract_limbs-exact (x ∷ xs) [] borrow same h k one = absurd (omega arith)
subtract_limbs-exact (x ∷ xs) (y ∷ ys) borrow same h k one =
    let (limb, small, next) = subtract_with_borrow-exact x y borrow h.0 k.0 one in
    let rest =
      subtract_limbs-exact xs ys (subtract_with_borrow x y borrow).1 (omega arith) h.1 k.1 next in
    (omega (arith, limb, rest.0), (omega (arith, rest.1.0), (small, rest.1.1)), rest.2)

pub value-lt : (xs : List ℕ) → All IsU64 xs → value xs < weight xs
value-lt [] h = omega arith
value-lt (x ∷ xs) h = omega (arith, value-lt xs h.1, h.0)

pub value-append : (xs ys : List ℕ) → value (xs ++ ys) ≡ value xs + weight xs * value ys
value-append [] ys = omega arith
value-append (x ∷ xs) ys = omega (arith, value-append xs ys)

-- The four limbs of a field element.
pub weight-four : (xs : List ℕ) → length xs ≡ 4 → weight xs ≡ 2 ^ 256
weight-four (a ∷ b ∷ c ∷ d ∷ []) four = refl
weight-four [] four = absurd (omega arith)
weight-four (a ∷ []) four = absurd (omega arith)
weight-four (a ∷ b ∷ []) four = absurd (omega arith)
weight-four (a ∷ b ∷ c ∷ []) four = absurd (omega arith)
weight-four (a ∷ b ∷ c ∷ d ∷ e ∷ rest) four = absurd (omega arith)

-- What a comparison from the highest limb down has found.
abbrev pub IsCompared : Option Bool → ℕ → ℕ → Type 0
IsCompared none left right = left ≡ right
IsCompared (some answer) left right = (answer ≡ leb right left) × (left ≢ right)

leb_behind :
    (x y a b : ℕ)
    → IsU64 x
    → IsU64 y
    → a ≢ b
    → (leb b a ≡ leb (y + 2 ^ 64 * b) (x + 2 ^ 64 * a)) × (x + 2 ^ 64 * a ≢ y + 2 ^ 64 * b)
leb_behind x y a b small also differ = (ground arith, λ same. differ (omega arith))

greater_loop-IsCompared :
    (xs ys : List ℕ)
    → length xs ≡ length ys
    → All IsU64 xs
    → All IsU64 ys
    → IsCompared (greater_loop xs ys) (value xs) (value ys)
unfolding greater_loop
greater_loop-IsCompared [] [] same h k = refl
greater_loop-IsCompared [] (y ∷ ys) same h k = absurd (omega arith)
greater_loop-IsCompared (x ∷ xs) [] same h k = absurd (omega arith)
greater_loop-IsCompared (x ∷ xs) (y ∷ ys) same h k =
    let behind = greater_loop-IsCompared xs ys (omega arith) h.1 k.1 in
    elim (Option-cases (greater_loop xs ys)) [
      | inl e ↦
          let equal = subst (λ o. IsCompared o (value xs) (value ys)) e behind in
          rw e (elim (Bool-cases (x == y)) [
            | inl t ↦ rw t (omega (arith, equal, (==_iff x y).0 t))
            | inr f ↦ rw f ((ground (arith, equal), λ same_value. absurd (ground (arith, equal))))
          ])
      | inr (answer, e) ↦
          let differ = subst (λ o. IsCompared o (value xs) (value ys)) e behind in
          let front = leb_behind x y (value xs) (value ys) h.0 k.0 differ.1 in
          rw e (differ.0 ∙ front.0, front.1)
    ]

-- The prime of the field, 2 ^ 256 - 2 ^ 32 - 977.
abbrev pub P : ℕ
P = 0xfffffffffffffffffffffffffffffffffffffffffffffffffffffffefffffc2f

pub prime-IsWide : IsWide 4 prime × (value prime ≡ P)
unfolding prime
prime-IsWide = ((refl, (omega arith, (omega arith, (omega arith, (omega arith, tt))))), refl)

pub greater_than_or_equal_prime_lem :
    (xs : List ℕ) → IsWide 4 xs → greater_than_or_equal_prime xs ≡ leb P (value xs)
unfolding greater_than_or_equal_prime
greater_than_or_equal_prime_lem xs (four, h) =
    let (wide, is_prime) = prime-IsWide in
    let compared = greater_loop-IsCompared xs prime (omega (arith, wide.0)) h wide.1 in
    elim (Option-cases (greater_loop xs prime)) [
      | inl e ↦
          let equal = subst (λ o. IsCompared o (value xs) (value prime)) e compared in
          rw (greater_than_or_equal_prime, e) (ground (arith, equal, is_prime))
      | inr (answer, e) ↦
          let differ = subst (λ o. IsCompared o (value xs) (value prime)) e compared in
          rw (greater_than_or_equal_prime, e) (differ.0 ∙ ap (λ (t : ℕ). leb t (value xs)) is_prime)
    ]
