-- ===== src/Chain/Tests.antt =====
-- Runs of the field arithmetic on small elements and on the largest one.
use mathlib.Core.Bool.{true≢false}
use tron_wallet_searcher.Common.{
  ℕ, ◌+◌, ◌*◌, ◌%◌, ◌^◌, ◌≡◌, refl, sym, ◌∙◌, List, [], ◌∷◌, All, map, arith, true,
}
use tron_wallet_searcher.Base58.Value.{be_value}
use tron_wallet_searcher.Chain.{
  field_multiply, reduce, field_square, field_from_small, multiply_full, multiply_rows,
  multiply_row, fold_high, fold_top, fold_carry, final_loop, ripple, add_three,
  greater_than_or_equal_prime, greater_loop, prime, subtract_raw, subtract_limbs,
  subtract_with_borrow, field_is_zero, or_limbs,
}
use tron_wallet_searcher.Chain.Curve.{
  field_inverse, inverse_loop, field_inverse_batch, field_to_big_endian,
  host_chain_field_from_big_endian,
}
use tron_wallet_searcher.Chain.Limbs.{value, P}
use tron_wallet_searcher.Chain.Arithmetic.{
  IsReduced, Represents, IsArithmetic, small-IsReduced, field_operations-IsArithmetic,
}
use tron_wallet_searcher.Chain.Inverse.{fermat_exponent, field_inverse-Represents}
use tron_wallet_searcher.Chain.Batch.{
  IsInvertible, inverse_or_zero, field_inverse_batch-eq-field_inverse,
}
use tron_wallet_searcher.Chain.BigEndian.{host_chain_field_from_big_endian-field_to_big_endian}

abbrev small : ℕ → List ℕ
small n = n ∷ 0 ∷ 0 ∷ 0 ∷ []

-- The prime less one.
abbrev largest : List ℕ
largest = 0xfffffffefffffc2e ∷ 0xffffffffffffffff ∷ 0xffffffffffffffff ∷ 0xffffffffffffffff ∷ []

largest-IsReduced : IsReduced largest
largest-IsReduced =
    ((refl, (omega arith, (omega arith, (omega arith, (omega arith, tt))))), omega arith)

field_operations-IsArithmetic_example : IsArithmetic largest (small 3)
field_operations-IsArithmetic_example =
    field_operations-IsArithmetic largest (small 3) largest-IsReduced
      (small-IsReduced 3 (omega arith))

field_inverse-Represents_example :
    (fermat_exponent + 2 ≡ P)
    × Represents (field_inverse (small 3)) (value (small 3) ^ fermat_exponent % P)
field_inverse-Represents_example =
    field_inverse-Represents (small 3) (small-IsReduced 3 (omega arith))

inverse_of_small :
    (value (field_inverse (small 3)) * value (small 3) % P ≡ 1)
    × (value (field_inverse (small 5)) * value (small 5) % P ≡ 1)
unfolding field_multiply reduce field_inverse inverse_loop field_square field_from_small
    multiply_full multiply_rows multiply_row fold_high fold_top fold_carry final_loop ripple
    add_three greater_than_or_equal_prime greater_loop prime subtract_raw subtract_limbs
    subtract_with_borrow
inverse_of_small = (refl, refl)

zero_is_zero : field_is_zero (small 0) ≡ true
unfolding field_is_zero or_limbs
zero_is_zero = refl

small-IsInvertible : All IsInvertible (small 3 ∷ small 0 ∷ small 5 ∷ [])
small-IsInvertible = (
  (small-IsReduced 3 (omega arith), λ nonzero. inverse_of_small.0),
  (
    (small-IsReduced 0 (omega arith), λ nonzero. absurd (true≢false (sym zero_is_zero ∙ nonzero))),
    ((small-IsReduced 5 (omega arith), λ nonzero. inverse_of_small.1), tt),
  ),
)

field_inverse_batch-eq-field_inverse_example :
    field_inverse_batch (small 3 ∷ small 0 ∷ small 5 ∷ [])
    ≡ map inverse_or_zero (small 3 ∷ small 0 ∷ small 5 ∷ [])
field_inverse_batch-eq-field_inverse_example =
    field_inverse_batch-eq-field_inverse (small 3 ∷ small 0 ∷ small 5 ∷ []) small-IsInvertible

host_chain_field_from_big_endian-field_to_big_endian_example :
    (host_chain_field_from_big_endian (field_to_big_endian largest) ≡ largest)
    × (be_value 256 0 (field_to_big_endian largest) ≡ value largest)
host_chain_field_from_big_endian-field_to_big_endian_example =
    host_chain_field_from_big_endian-field_to_big_endian largest largest-IsReduced.0
