-- ===== src/Secp/Tests.antt =====
-- Known answers: the multiples of the generator, and a sum that needs the reduction.
use tron_wallet_searcher.Common.{ℕ, List, ◌∷◌, ◌++◌, ◌≡◌, refl, for_range, replicate}
use tron_wallet_searcher.Secp.{
  field_prime_limb, field_prime, field_compare, combined, field_is_zero, subtract_from,
  field_subtract_raw, carry_words, fold_word, reduce_pass, reduce_passes, reduce_once,
  reduce_accumulator, limb_sums, field_add, field_negate, field_subtract, product_row, product_rows,
  field_multiply, field_square, field_from_small,
}
use tron_wallet_searcher.Secp.Curve.{
  field_from_big_endian, field_to_big_endian, generator_point, point_to_public_key, generator_x,
  generator_y,
}

round_trip : point_to_public_key generator_point ≡ generator_x ++ generator_y
unfolding point_to_public_key generator_point field_from_big_endian field_to_big_endian
round_trip = refl

abbrev largest : List ℕ
largest = 0xfffffc2e ∷ 0xfffffffe ∷ replicate 6 0xffffffff

-- The prime less one is its own inverse.
largest_squared : field_square largest ≡ field_from_small 1
unfolding field_prime_limb field_prime field_compare subtract_from field_subtract_raw carry_words
    fold_word reduce_pass reduce_passes reduce_once reduce_accumulator product_row product_rows
    field_multiply field_square field_from_small for_range
largest_squared = refl

sum_of_opposites : field_subtract (field_from_small 5) (field_from_small 5) ≡ replicate 8 0
unfolding field_prime_limb field_prime field_compare combined field_is_zero subtract_from
    field_subtract_raw carry_words fold_word reduce_pass reduce_passes reduce_once
    reduce_accumulator limb_sums field_add field_negate field_subtract field_from_small for_range
sum_of_opposites = refl
