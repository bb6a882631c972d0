-- ===== src/Chain.antt =====
-- Field elements of four 64-bit limbs, the least significant first: native/src/cuda_chain.cuh.
-- A loop over the limbs is a recursion on their lists. `__umul64hi` is the high word of a product.
pub mod Limbs
pub mod Multiply
pub mod Reduce
pub mod Arithmetic
pub mod Curve
pub mod Inverse
pub mod Batch
pub mod BigEndian
mod Tests
use tron_wallet_searcher.Common.{
  ℕ, zero, suc, ◌+◌, ◌-◌, ◌*◌, ◌/◌, ◌%◌, ◌^◌, List, [], ◌∷◌, ◌++◌, Bool, true, false, not, ◌==◌,
  ◌&&◌, ◌||◌, ltb, if◌then◌else◌, get_or, replicate, take, Option, none, some, bit_or, bit_xor,
}
use tron_wallet_searcher.Common.Words.{u64}

-- `left + right`, and whether it wrapped: the sum is below its first summand.
abbrev pub sum_of : ℕ → ℕ → ℕ
sum_of left right = u64 (left + right)

abbrev pub carry_of : ℕ → ℕ → ℕ
carry_of left right = if ltb (u64 (left + right)) left then 1 else 0

-- The value returned, and the new carry.
unfoldable pub add_with_carry : ℕ → ℕ → ℕ → ℕ × ℕ
add_with_carry left right carry =
    let first = sum_of left right in
    (sum_of first carry, carry_of left right + carry_of first carry)

unfoldable pub subtract_with_borrow : ℕ → ℕ → ℕ → ℕ × ℕ
subtract_with_borrow left right borrow =
    let first = u64 (left + 2 ^ 64 - right) in
    let first_borrow = if ltb left right then 1 else 0 in
    let second = u64 (first + 2 ^ 64 - borrow) in
    let second_borrow = if ltb first borrow then 1 else 0 in (second, first_borrow + second_borrow)

unfoldable pub add_limbs : List ℕ → List ℕ → ℕ → List ℕ × ℕ
add_limbs [] right carry = ([], carry)
add_limbs (x ∷ xs) [] carry = ([], carry)
add_limbs (x ∷ xs) (y ∷ ys) carry =
    let (limb, next) = add_with_carry x y carry in
    let (limbs, last) = add_limbs xs ys next in (limb ∷ limbs, last)

-- The output, and the carry returned.
unfoldable pub add_raw : List ℕ → List ℕ → List ℕ × ℕ
add_raw left right = add_limbs left right 0

unfoldable pub subtract_limbs : List ℕ → List ℕ → ℕ → List ℕ × ℕ
subtract_limbs [] right borrow = ([], borrow)
subtract_limbs (x ∷ xs) [] borrow = ([], borrow)
subtract_limbs (x ∷ xs) (y ∷ ys) borrow =
    let (limb, next) = subtract_with_borrow x y borrow in
    let (limbs, last) = subtract_limbs xs ys next in (limb ∷ limbs, last)

unfoldable pub subtract_raw : List ℕ → List ℕ → List ℕ × ℕ
subtract_raw left right = subtract_limbs left right 0

unfoldable pub prime : List ℕ
prime = 0xfffffffefffffc2f ∷ 0xffffffffffffffff ∷ 0xffffffffffffffff ∷ 0xffffffffffffffff ∷ []

-- The loop from the highest limb down: the answer of the first limb that differs, if any.
unfoldable pub greater_loop : List ℕ → List ℕ → Option Bool
greater_loop [] modulus = none
greater_loop (x ∷ xs) [] = none
greater_loop (x ∷ xs) (y ∷ ys) = elim (greater_loop xs ys) [
  | some answer ↦ some answer
  | none ↦ if not (x == y) then some (ltb y x) else none
]

unfoldable pub greater_than_or_equal_prime : List ℕ → Bool
greater_than_or_equal_prime value = elim (greater_loop value prime) [
  | some answer ↦ answer
  | none ↦ true
]

-- `combined |= limb` over the limbs.
unfoldable pub or_limbs : List ℕ → ℕ
or_limbs [] = 0
or_limbs (x ∷ xs) = bit_or x (or_limbs xs)

unfoldable pub field_is_zero : List ℕ → Bool
field_is_zero value = or_limbs value == 0

unfoldable pub differences : List ℕ → List ℕ → List ℕ
differences [] right = []
differences (x ∷ xs) [] = []
differences (x ∷ xs) (y ∷ ys) = bit_xor x y ∷ differences xs ys

unfoldable pub field_equal : List ℕ → List ℕ → Bool
field_equal left right = or_limbs (differences left right) == 0

-- The inner loop of the product, over the limbs of `right`, on `product + left_index`. Behind them
-- the carry is written.
unfoldable pub multiply_row : ℕ → List ℕ → List ℕ → ℕ → List ℕ
multiply_row x right [] carry = []
multiply_row x [] (p ∷ product) carry = carry ∷ product
multiply_row x (y ∷ ys) (p ∷ product) carry =
    let low = u64 (x * y) in
    let high = x * y / 2 ^ 64 in
    let first = sum_of p low in
    let next = u64 (high + carry_of p low + carry_of first carry) in
    sum_of first carry ∷ multiply_row x ys product next

-- The outer loop: a row leaves the lowest limb as it will stay.
unfoldable pub multiply_rows : List ℕ → List ℕ → List ℕ → List ℕ
multiply_rows [] right product = product
multiply_rows (x ∷ xs) right product = elim (multiply_row x right product 0) [
  | [] ↦ []
  | limb ∷ limbs ↦ limb ∷ multiply_rows xs right limbs
]

unfoldable pub multiply_full : List ℕ → List ℕ → List ℕ
multiply_full left right = multiply_rows left right (replicate 8 0)

abbrev pub reduction_constant : ℕ
reduction_constant = 0x1000003d1

-- `partial + x + y + z`, word by word, and the sum of the three carries.
unfoldable pub add_three : ℕ → ℕ → ℕ → ℕ → ℕ × ℕ
add_three partial x y z =
    let one = sum_of partial x in
    let two = sum_of one y in (sum_of two z, carry_of partial x + carry_of one y + carry_of two z)

-- The first fold: the five words of the accumulator.
unfoldable pub fold_high : List ℕ → List ℕ
unfolding add_three
fold_high input =
    let word = λ (index : ℕ). get_or input index 0 in
    let low = λ (index : ℕ). u64 (word index * reduction_constant) in
    let high = λ (index : ℕ). word index * reduction_constant / 2 ^ 64 in
    let carry0 = carry_of (word 0) (low 4) in
    let (sum1, carry1) = add_three (word 1) (low 5) (high 4) carry0 in
    let (sum2, carry2) = add_three (word 2) (low 6) (high 5) carry1 in
    let (sum3, carry3) = add_three (word 3) (low 7) (high 6) carry2 in
    sum_of (word 0) (low 4) ∷ sum1 ∷ sum2 ∷ sum3 ∷ u64 (high 7 + carry3) ∷ []

-- A carry that runs through the words, and what is left of it.
unfoldable pub ripple : List ℕ → ℕ → List ℕ × ℕ
ripple [] carry = ([], carry)
ripple (x ∷ xs) carry = let (ys, last) = ripple xs (carry_of x carry) in (sum_of x carry ∷ ys, last)

-- The second fold: four words and the carry behind them.
unfoldable pub fold_top : List ℕ → List ℕ × ℕ
fold_top accumulator =
    let word = λ (index : ℕ). get_or accumulator index 0 in
    let folded_low = u64 (word 4 * reduction_constant) in
    let folded_high = word 4 * reduction_constant / 2 ^ 64 in
    let folded_carry = carry_of (word 0) folded_low in
    let partial = sum_of (word 1) folded_high in
    let (rest, last) =
      ripple (word 2 ∷ word 3 ∷ [])
        (carry_of (word 1) folded_high + carry_of partial folded_carry) in
    (sum_of (word 0) folded_low ∷ sum_of partial folded_carry ∷ rest, last)

-- `for (index = 1; index < 4 && final_carry != 0; ++index)`: add one while there is a carry.
unfoldable pub final_loop : List ℕ → ℕ → List ℕ
final_loop [] final_carry = []
final_loop (x ∷ xs) final_carry =
    let rest = final_loop xs (carry_of x 1) in
    if final_carry == 0 then x ∷ xs else sum_of x 1 ∷ rest

-- The last fold, where a carry is left.
unfoldable pub fold_carry : List ℕ → ℕ → List ℕ
fold_carry [] folded_carry = []
fold_carry (x ∷ xs) folded_carry =
    let addend = u64 (folded_carry * reduction_constant) in
    if folded_carry == 0 then x ∷ xs else sum_of x addend ∷ final_loop xs (carry_of x addend)

unfoldable pub reduce : List ℕ → List ℕ
reduce input =
    let (words, folded_carry) = fold_top (fold_high input) in
    let output = fold_carry words folded_carry in
    if greater_than_or_equal_prime output then (subtract_raw output prime).0 else output

unfoldable pub field_add : List ℕ → List ℕ → List ℕ
field_add left right =
    let (low, carry) = add_raw left right in reduce (low ++ carry ∷ 0 ∷ 0 ∷ 0 ∷ [])

unfoldable pub field_subtract : List ℕ → List ℕ → List ℕ
field_subtract left right =
    let (output, borrow) = subtract_raw left right in
    if not (borrow == 0) then (add_raw output prime).0 else output

unfoldable pub field_negate : List ℕ → List ℕ
field_negate value = if field_is_zero value then replicate 4 0 else (subtract_raw prime value).0

unfoldable pub field_multiply : List ℕ → List ℕ → List ℕ
field_multiply left right = reduce (multiply_full left right)

unfoldable pub field_square : List ℕ → List ℕ
field_square value = field_multiply value value

unfoldable pub field_from_small : ℕ → List ℕ
field_from_small value = value ∷ 0 ∷ 0 ∷ 0 ∷ []
