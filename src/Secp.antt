-- ===== src/Secp.antt =====
-- Field elements of eight 32-bit limbs, the least significant first: native/src/cuda_secp.cuh. The
-- accumulators are lists of 64-bit words; a loop that goes over them in order is a recursion, one
-- that jumps is a loop over indices.
pub mod Curve
mod Tests
use tron_wallet_searcher.Common.{
  ℕ, zero, suc, ◌+◌, ◌-◌, ◌*◌, ◌/◌, ◌%◌, ◌^◌, List, [], ◌∷◌, ◌++◌, map, Bool, true, false, not,
  ◌==◌, ltb, if◌then◌else◌, get_or, set, replicate, take, Option, none, some, bit_or, bit_xor,
  for_range,
}
use tron_wallet_searcher.Common.Words.{u32, u64}

unfoldable pub field_prime_limb : ℕ → ℕ
field_prime_limb index =
    if index == 0 then 0xfffffc2f else if index == 1 then 0xfffffffe else 0xffffffff

unfoldable pub field_prime : List ℕ
unfolding field_prime_limb
field_prime = map field_prime_limb (0 ∷ 1 ∷ 2 ∷ 3 ∷ 4 ∷ 5 ∷ 6 ∷ 7 ∷ [])

-- -1, 0 and 1.
pub data Order : Type 0 where
  less : Order
  equal : Order
  greater : Order

-- From the highest limb down: the first limbs that differ decide.
unfoldable pub field_compare : List ℕ → List ℕ → Order
field_compare [] right = equal
field_compare (x ∷ xs) [] = equal
field_compare (x ∷ xs) (y ∷ ys) = elim (field_compare xs ys) [
  | less ↦ less
  | equal ↦ if ltb x y then less else if ltb y x then greater else equal
  | greater ↦ greater
]

unfoldable pub combined : List ℕ → ℕ → ℕ
combined [] sum = sum
combined (limb ∷ limbs) sum = combined limbs (bit_or sum limb)

unfoldable pub field_is_zero : List ℕ → Bool
field_is_zero value = combined value 0 == 0

unfoldable pub difference : List ℕ → List ℕ → ℕ → ℕ
difference [] right sum = sum
difference (x ∷ xs) [] sum = sum
difference (x ∷ xs) (y ∷ ys) sum = difference xs ys (bit_or sum (bit_xor x y))

unfoldable pub field_equal : List ℕ → List ℕ → Bool
field_equal left right = difference left right 0 == 0

-- The limbs, with the borrow that goes into them.
unfoldable pub subtract_from : List ℕ → List ℕ → ℕ → List ℕ
subtract_from [] right borrow = []
subtract_from (x ∷ xs) [] borrow = []
subtract_from (x ∷ xs) (y ∷ ys) borrow =
    let subtrahend = u64 (y + borrow) in
    u32 (u64 (x + 2 ^ 64 - subtrahend)) ∷ subtract_from xs ys (if ltb x subtrahend then 1 else 0)

unfoldable pub field_subtract_raw : List ℕ → List ℕ → List ℕ
field_subtract_raw left right = subtract_from left right 0

-- The carries of a pass: every word but the last is cut to its 32 low bits.
unfoldable pub carry_words : List ℕ → ℕ → List ℕ
carry_words [] carry = []
carry_words (x ∷ []) carry = u64 (x + carry) ∷ []
carry_words (x ∷ y ∷ rest) carry =
    let word = u64 (x + carry) in word % 2 ^ 32 ∷ carry_words (y ∷ rest) (word / 2 ^ 32)

-- The word at an index from 8 on is taken off and added, times 2 ^ 32 + 977, eight places lower.
unfoldable pub fold_word : ℕ → List ℕ × Bool → List ℕ × Bool
fold_word index (accumulator, has_high_limb) =
    let value = get_or accumulator index 0 in
    if value == 0
    then (accumulator, has_high_limb)
    else (let cleared = set accumulator index 0 in
        let low =
          set cleared (index - 8) (u64 (get_or cleared (index - 8) 0 + u64 (value * 977))) in
        (set low (index - 7) (u64 (get_or low (index - 7) 0 + value)), true))

-- A pass: the carries, and the fold from index 17 down to 8.
unfoldable pub reduce_pass : List ℕ → List ℕ × Bool
reduce_pass accumulator =
    for_range 10 0 (λ round state. fold_word (17 - round) state) (carry_words accumulator 0, false)

-- The passes end with the first one that finds no high word.
unfoldable pub reduce_passes : ℕ → List ℕ → List ℕ
reduce_passes zero accumulator = accumulator
reduce_passes (suc passes) accumulator =
    let (folded, has_high_limb) = reduce_pass accumulator in
    let rest = reduce_passes passes folded in if has_high_limb then rest else folded

-- The last subtraction, of the eight low words as limbs.
unfoldable pub reduce_once : List ℕ → List ℕ
reduce_once output = elim (field_compare output field_prime) [
  | less ↦ output
  | equal ↦ field_subtract_raw output field_prime
  | greater ↦ field_subtract_raw output field_prime
]

unfoldable pub reduce_accumulator : List ℕ → List ℕ
reduce_accumulator accumulator = reduce_once (map u32 (take 8 (reduce_passes 12 accumulator)))

unfoldable pub limb_sums : List ℕ → List ℕ → List ℕ
limb_sums [] right = []
limb_sums (x ∷ xs) [] = []
limb_sums (x ∷ xs) (y ∷ ys) = u64 (x + y) ∷ limb_sums xs ys

unfoldable pub field_add : List ℕ → List ℕ → List ℕ
field_add left right = reduce_accumulator (limb_sums left right ++ replicate 10 0)

unfoldable pub field_negate : List ℕ → List ℕ
field_negate value =
    if field_is_zero value then replicate 8 0 else field_subtract_raw field_prime value

unfoldable pub field_subtract : List ℕ → List ℕ → List ℕ
field_subtract left right = field_add left (field_negate right)

-- The inner loop of the product, on `product + left_index`; the carry is written behind it.
unfoldable pub product_row : ℕ → List ℕ → List ℕ → ℕ → List ℕ
product_row x right [] carry = []
product_row x [] (p ∷ product) carry = u32 carry ∷ product
product_row x (y ∷ ys) (p ∷ product) carry =
    let sum = u64 (x * y + p + carry) in u32 sum ∷ product_row x ys product (sum / 2 ^ 32)

unfoldable pub product_rows : List ℕ → List ℕ → List ℕ → List ℕ
product_rows [] right product = product
product_rows (x ∷ xs) right product = elim (product_row x right product 0) [
  | [] ↦ []
  | limb ∷ limbs ↦ limb ∷ product_rows xs right limbs
]

unfoldable pub field_multiply : List ℕ → List ℕ → List ℕ
field_multiply left right =
    reduce_accumulator (product_rows left right (replicate 16 0) ++ 0 ∷ 0 ∷ [])

unfoldable pub field_square : List ℕ → List ℕ
field_square value = field_multiply value value

unfoldable pub field_from_small : ℕ → List ℕ
field_from_small value = value ∷ replicate 7 0
