-- ===== src/Kernels/Tests.antt =====
-- Known answers of the device code, and candidates at the generator of the group.
use tron_wallet_searcher.Common.{
  ℕ, ◌*◌, ◌%◌, List, [], ◌∷◌, ◌++◌, ◌≡◌, refl, text, text_eq, for_range, Result, ok, err, length,
  get_or, replicate, true, false, map, All, arith, Bool,
}
use mathlib.Core.Bool.{true≢false}
use tron_wallet_searcher.Common.Words.{IsU64}
use tron_wallet_searcher.Keccak.{
  device_keccak_256_64, device_keccak_permute, device_keccak_round, for_lanes, device_rotate_left,
  device_load_little_endian, device_store_little_endian,
}
use tron_wallet_searcher.Base58.{
  base58_alphabet, device_base58_25, device_encode_loop, add_byte, base58_text, alphabet_at,
  leading_zeroes,
}
use tron_wallet_searcher.Pattern.{
  contains, validate_pattern, check_lengths, check_characters, pattern_lengths,
  allowed_first_custom,
}
use tron_wallet_searcher.PrefixFilter.{
  host_decode_base58, find, host_base58_digit, multiply_loop, host_multiply_small, add_loop,
  host_add_small, subtract_loop, host_subtract_one, decode_loop, zero_integer, host_decode_base58,
  shift_places, host_prefix_bound, host_base58_contains, alternative, variable_positions,
  toggle_case, toggle_bits, prefix_interval, variant_intervals, populate_prefix_intervals,
}
use tron_wallet_searcher.Chain.{
  field_multiply, field_subtract, reduce, field_square, field_from_small, multiply_full,
  multiply_rows, multiply_row, fold_high, fold_top, fold_carry, final_loop, ripple, add_three,
  greater_than_or_equal_prime, greater_loop, prime, subtract_raw, subtract_limbs,
  subtract_with_borrow, field_is_zero, or_limbs, add_raw, add_limbs, add_with_carry,
}
use tron_wallet_searcher.Chain.Limbs.{value, P}
use tron_wallet_searcher.Chain.Arithmetic.{small-IsReduced}
use tron_wallet_searcher.Chain.Curve.{
  Point, point_add, field_inverse, inverse_loop, from_legacy_field, word_to_big_endian,
}
use tron_wallet_searcher.Chain.Curve as Wide
use tron_wallet_searcher.Secp.Curve.{
  AffinePoint, generator_point, scalar_multiply_u64, from_legacy_point, field_from_big_endian,
}
use tron_wallet_searcher.Secp.Curve as Legacy
use tron_wallet_searcher.Kernels.Grid.{
  delta_x, advance_chains, incremental_search_kernel, batched_search_kernel,
}
use tron_wallet_searcher.Address.Payload.{tron_payload}
use tron_wallet_searcher.Kernels.Candidate.{device_address-decodes}
use tron_wallet_searcher.Kernels.Step.{CanAdvance, advance_chains-eq-point_add}
use tron_wallet_searcher.Kernels.Sha256.{standard_hash, device_sha256_single_block-eq-standard}
use tron_wallet_searcher.Kernels.Rounds.{
  rounds, batch_rounds, incremental_search_kernel-rounds, batched_search_kernel-rounds,
}
use tron_wallet_searcher.Kernels.Transparent.{Gives, evaluate_candidates-Gives}
use tron_wallet_searcher.Kernels.{
  DevicePattern, device_sha256_single_block, sha256_schedule, sha256_round, sha256_digest,
  extend_schedule, device_rotate_right, device_sha256_constants,
  device_tron_address_from_public_key, evaluate_chain_candidate, evaluate_search_candidate,
  device_tron_payload_from_public_key, device_tron_address_from_payload,
}

sha256_of_abc :
    device_sha256_single_block (0x61 ∷ 0x62 ∷ 0x63 ∷ [])
    ≡ 0xba ∷ 0x78 ∷ 0x16 ∷ 0xbf ∷ 0x8f ∷ 0x01 ∷ 0xcf ∷ 0xea ∷ 0x41 ∷ 0x41 ∷ 0x40 ∷ 0xde ∷ 0x5d
      ∷ 0xae ∷ 0x22 ∷ 0x23 ∷ 0xb0 ∷ 0x03 ∷ 0x61 ∷ 0xa3 ∷ 0x96 ∷ 0x17 ∷ 0x7a ∷ 0x9c ∷ 0xb4 ∷ 0x10
      ∷ 0xff ∷ 0x61 ∷ 0xf2 ∷ 0x00 ∷ 0x15 ∷ 0xad ∷ []
unfolding device_sha256_single_block sha256_schedule sha256_round sha256_digest extend_schedule
    device_rotate_right device_sha256_constants for_range
sha256_of_abc = refl

device_address-decodes_example :
    (s : List ℕ) × (device_tron_address_from_public_key (replicate 64 5) ≡ s ++ 0 ∷ [])
    × (host_decode_base58 s ≡ ok (tron_payload device_sha256_single_block (replicate 64 5)))
    × (length s ≡ 34)
    × (get_or s 0 0 ≡ b'T')
device_address-decodes_example = device_address-decodes (replicate 64 5) refl

validates : validate_pattern (text "2x2") (text "DV") (text "9k") ≡ ok tt
unfolding validate_pattern check_lengths check_characters pattern_lengths contains
    allowed_first_custom text text_eq base58_alphabet
validates = refl

abbrev rows_of : Result (List (List ℕ × List ℕ)) → List (List ℕ × List ℕ)
rows_of (ok rows) = rows
rows_of (err e) = []

abbrev table : List (List ℕ × List ℕ)
table = rows_of (populate_prefix_intervals (text "DV"))

fills : populate_prefix_intervals (text "DV") ≡ ok table
unfolding find host_base58_digit multiply_loop host_multiply_small add_loop host_add_small
    subtract_loop host_subtract_one decode_loop zero_integer host_decode_base58 shift_places
    host_prefix_bound host_base58_contains alternative variable_positions toggle_case toggle_bits
    prefix_interval variant_intervals populate_prefix_intervals contains base58_alphabet text
fills = refl

generator_sizes :
    (length (from_legacy_point generator_point).x ≡ 4)
    × (length (from_legacy_point generator_point).y ≡ 4)
    × (length generator_point.x ≡ 8)
    × (length generator_point.y ≡ 8)
unfolding generator_point from_legacy_point from_legacy_field field_from_big_endian
generator_sizes = (refl, refl, refl, refl)

evaluate_candidates-Gives_example :
    Gives
      (from_legacy_point generator_point).infinity
      (Wide.point_to_public_key (from_legacy_point generator_point))
      (text "DV")
      (text "9k")
      7
      (evaluate_chain_candidate
        (from_legacy_point generator_point)
        7
        (record { prefix = text "DV"; suffix = text "9k"; rows = table }))
    × Gives generator_point.infinity
        (Legacy.point_to_public_key generator_point)
        (text "DV")
        (text "9k")
        7
        (evaluate_search_candidate generator_point 7
          (record { prefix = text "DV"; suffix = text "9k"; rows = table }))
evaluate_candidates-Gives_example =
    evaluate_candidates-Gives (text "2x2") (text "DV") (text "9k") table 7
      (from_legacy_point generator_point) generator_point validates fills
      (generator_sizes.0, generator_sizes.1) (generator_sizes.2, generator_sizes.3)

abbrev at : ℕ → Bool → Point
at n far = record { x = n ∷ 0 ∷ 0 ∷ 0 ∷ []; y = 9 ∷ 0 ∷ 0 ∷ 0 ∷ []; infinity = far }

inverse_of_two : value (field_inverse (2 ∷ 0 ∷ 0 ∷ 0 ∷ [])) * 2 % P ≡ 1
unfolding field_multiply reduce field_inverse inverse_loop field_square field_from_small
    multiply_full multiply_rows multiply_row fold_high fold_top fold_carry final_loop ripple
    add_three greater_than_or_equal_prime greater_loop prime subtract_raw subtract_limbs
    subtract_with_borrow
inverse_of_two = refl

-- A chain two below the stride, one at its x, and one at infinity.
chains-CanAdvance : All (CanAdvance (at 5 false)) (at 3 false ∷ at 5 false ∷ at 1 true ∷ [])
unfolding delta_x field_subtract subtract_raw subtract_limbs subtract_with_borrow field_is_zero
    or_limbs
chains-CanAdvance =
    let reduced = λ (n : ℕ) (fits : IsU64 n). small-IsReduced n fits in
    (
      (reduced 3 (omega arith), (reduced 2 (omega arith), λ nonzero. inverse_of_two)),
      (
        (
          reduced 5 (omega arith),
          (reduced 0 (omega arith), λ nonzero. absurd (true≢false nonzero)),
        ),
        (
          (
            reduced 1 (omega arith),
            (reduced 0 (omega arith), λ nonzero. absurd (true≢false nonzero)),
          ),
          tt,
        ),
      ),
    )

advance_chains-eq-point_add_example :
    advance_chains (at 5 false) (at 3 false ∷ at 5 false ∷ at 1 true ∷ [])
    ≡ map (λ point. point_add point (at 5 false)) (at 3 false ∷ at 5 false ∷ at 1 true ∷ [])
advance_chains-eq-point_add_example =
    advance_chains-eq-point_add (at 5 false) (at 3 false ∷ at 5 false ∷ at 1 true ∷ []) refl
      (small-IsReduced 5 (omega arith)) chains-CanAdvance

abbrev search_pattern : DevicePattern
search_pattern = record { prefix = text "D"; suffix = text "9K"; rows = [] }

incremental_search_kernel-rounds_example :
    incremental_search_kernel generator_point (scalar_multiply_u64 4) search_pattern 20 4 1
    ≡ rounds 5
        (scalar_multiply_u64 4)
        search_pattern
        4
        1
        (Legacy.point_add generator_point (scalar_multiply_u64 1))
incremental_search_kernel-rounds_example =
    incremental_search_kernel-rounds 5 generator_point (scalar_multiply_u64 4) search_pattern 20 4 1
      (omega arith) (omega arith) (omega arith, omega arith)

abbrev batch_table : List AffinePoint
batch_table = map scalar_multiply_u64 (1 ∷ 2 ∷ 3 ∷ 4 ∷ [])

batched_search_kernel-rounds_example :
    batched_search_kernel generator_point
      (scalar_multiply_u64 36)
      batch_table
      search_pattern
      100
      4
      1
    ≡ batch_rounds 3
        (scalar_multiply_u64 36)
        batch_table
        search_pattern
        100
        4
        1
        (Legacy.point_add generator_point (scalar_multiply_u64 13))
batched_search_kernel-rounds_example =
    batched_search_kernel-rounds 3 generator_point (scalar_multiply_u64 36) batch_table
      search_pattern 100 4 1 (omega arith) (omega arith) (omega arith, omega arith)

device_sha256_single_block-eq-standard_example :
    device_sha256_single_block (0x61 ∷ 0x62 ∷ 0x63 ∷ [])
    ≡ standard_hash (λ t. get_or (sha256_schedule (0x61 ∷ 0x62 ∷ 0x63 ∷ [])) t 0)
device_sha256_single_block-eq-standard_example =
    device_sha256_single_block-eq-standard (0x61 ∷ 0x62 ∷ 0x63 ∷ [])

-- The second test vector of `cuda_self_test_json`, the address of the scalar 2.
address_of_two :
    device_tron_address_from_public_key
      (Wide.point_to_public_key (Wide.point_double (from_legacy_point generator_point)))
    ≡ text "TDvSsdrNM5eeXNL3czpa6AxLDHZA9nwe9K" ++ 0 ∷ []
unfolding field_multiply reduce field_inverse inverse_loop field_square field_from_small
    multiply_full multiply_rows multiply_row fold_high fold_top fold_carry final_loop ripple
    add_three greater_than_or_equal_prime greater_loop prime subtract_raw subtract_limbs
    subtract_with_borrow field_subtract field_is_zero or_limbs add_raw add_limbs add_with_carry
    Wide.point_double Wide.point_to_public_key Wide.field_to_big_endian word_to_big_endian
    from_legacy_point from_legacy_field generator_point field_from_big_endian
    device_tron_address_from_public_key device_tron_payload_from_public_key
    device_tron_address_from_payload device_sha256_single_block sha256_schedule sha256_round
    sha256_digest extend_schedule device_rotate_right device_sha256_constants for_range
    device_keccak_256_64 device_keccak_permute device_keccak_round for_lanes device_rotate_left
    device_load_little_endian device_store_little_endian device_base58_25 device_encode_loop
    add_byte base58_text alphabet_at base58_alphabet leading_zeroes text
address_of_two = refl
