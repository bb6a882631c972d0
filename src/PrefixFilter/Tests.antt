-- ===== src/PrefixFilter/Tests.antt =====
-- The checks of `cuda_host_crypto_self_test` on the prefilter, and its address.
use tron_wallet_searcher.Common.{
  List, ℕ, suc, ◌-◌, ◌*◌, ◌^◌, ◌≤◌, [], ◌∷◌, map, ◌≡◌, refl, true, false, ok, text, text_eq, Bool,
  Result, ◌>>=◌, All, length, take, drop, replicate, arith,
}
use tron_wallet_searcher.Base58.{
  base58_encode, encode_loop, add_byte, base58_text, alphabet_at, base58_alphabet, leading_zeroes,
}
use tron_wallet_searcher.Base58.Value.{be_value}
use tron_wallet_searcher.Base58.Carry.{IsDigit}
use tron_wallet_searcher.Pattern.Valid.{IsBase58}
use tron_wallet_searcher.PrefixFilter.Integer.{Gives}
use tron_wallet_searcher.PrefixFilter.Bound.{lower_bound, upper_bound}
use tron_wallet_searcher.PrefixFilter.Compare.{IsRow, host_payload_may_match_prefix-eq-device}
use tron_wallet_searcher.PrefixFilter.Decode.{host_decode_base58-base58_encode}
use tron_wallet_searcher.PrefixFilter.Rows.{populate_prefix_intervals-total}
use tron_wallet_searcher.PrefixFilter.Sound.{prefilter_sound}
use tron_wallet_searcher.Pattern.{
  contains, matches_pattern, prefix_matches, suffix_matches, loose_equal, validate_pattern,
  check_lengths, check_characters, pattern_lengths, allowed_first_custom,
}
use tron_wallet_searcher.PrefixFilter.{
  find, host_base58_digit, multiply_loop, host_multiply_small, add_loop, host_add_small,
  subtract_loop, host_subtract_one, decode_loop, zero_integer, host_decode_base58, shift_places,
  host_prefix_bound, host_base58_contains, alternative, variable_positions, toggle_case,
  toggle_bits, prefix_interval, variant_intervals, populate_prefix_intervals,
  device_compare_payload, device_payload_may_match_prefix, update_comparison, host_compare_row,
  host_payload_may_match_prefix, payload_size,
}

prefilter : List ℕ → List ℕ → Result Bool
unfolding find host_base58_digit multiply_loop host_multiply_small add_loop host_add_small
    subtract_loop host_subtract_one decode_loop zero_integer host_decode_base58 shift_places
    host_prefix_bound host_base58_contains alternative variable_positions toggle_case toggle_bits
    prefix_interval variant_intervals populate_prefix_intervals device_compare_payload
    device_payload_may_match_prefix update_comparison host_compare_row host_payload_may_match_prefix
    contains base58_alphabet text
prefilter prefix address = do
  value ← host_decode_base58 address
  rows ← populate_prefix_intervals prefix
  ok (host_payload_may_match_prefix value rows)

exact_prefix : prefilter (text "Dv") (text "TDvSsdrNM5eeXNL3czpa6AxLDHZA9nwe9K") ≡ ok true
unfolding prefilter
exact_prefix = refl

loose_second_character : prefilter (text "DV") (text "TDvSsdrNM5eeXNL3czpa6AxLDHZA9nwe9K") ≡ ok true
unfolding prefilter
loose_second_character = refl

wrong_exact_first_character :
    prefilter (text "dv") (text "TDvSsdrNM5eeXNL3czpa6AxLDHZA9nwe9K") ≡ ok false
unfolding prefilter
wrong_exact_first_character = refl

-- The payload of that address, with its checksum.
abbrev payload : List ℕ
payload =
    65 ∷ 43 ∷ 90 ∷ 213 ∷ 196 ∷ 121 ∷ 92 ∷ 2 ∷ 101 ∷ 20 ∷ 248 ∷ 49 ∷ 124 ∷ 122 ∷ 33 ∷ 94 ∷ 33 ∷ 141
    ∷ 204 ∷ 214 ∷ 207 ∷ 169 ∷ 148 ∷ 105 ∷ 150 ∷ []

abbrev address : List ℕ
address = text "TDvSsdrNM5eeXNL3czpa6AxLDHZA9nwe9K"

encodes : base58_encode payload ≡ ok address
unfolding base58_encode encode_loop add_byte base58_text alphabet_at base58_alphabet leading_zeroes
    text
encodes = refl

validates : validate_pattern (text "2x2") (text "DV") (text "9k") ≡ ok tt
unfolding validate_pattern check_lengths check_characters pattern_lengths contains
    allowed_first_custom text text_eq base58_alphabet
validates = refl

accepts : matches_pattern address (text "DV") (text "9k") ≡ true
unfolding matches_pattern prefix_matches suffix_matches loose_equal text
accepts = refl

prefix_known : All IsBase58 (text "DV")
unfolding contains base58_alphabet text
prefix_known = (refl, (refl, tt))

-- The digits of "TDv".
abbrev digits : List ℕ
digits = 26 ∷ 12 ∷ 52 ∷ []

digits_small : All IsDigit digits
digits_small = omega arith

prefilter_sound_example :
    (rows : List (List ℕ × List ℕ)) × (populate_prefix_intervals (text "DV") ≡ ok rows)
    × (device_payload_may_match_prefix (take payload_size payload) rows ≡ true)
prefilter_sound_example =
    prefilter_sound (text "2x2") (text "DV") (text "9k") payload address validates refl
      (omega arith) encodes accepts

host_decode_base58-base58_encode_example :
    (s : List ℕ) × (base58_encode payload ≡ ok s) × (host_decode_base58 s ≡ ok payload)
host_decode_base58-base58_encode_example =
    host_decode_base58-base58_encode payload refl (omega arith)

populate_prefix_intervals-total_example :
    (rows : List (List ℕ × List ℕ)) × (populate_prefix_intervals (text "DV") ≡ ok rows)
    × All IsRow rows
    × (length rows ≡ 2 ^ length (variable_positions 1 (drop 1 (text "DV"))))
    × (length rows ≤ 8)
unfolding text
populate_prefix_intervals-total_example =
    populate_prefix_intervals-total (text "DV") prefix_known (omega arith) (omega arith)

host_payload_may_match_prefix-eq-device_example :
    host_payload_may_match_prefix payload ((replicate 21 65, replicate 21 66) ∷ [])
    ≡ device_payload_may_match_prefix
        (take payload_size payload)
        ((replicate 21 65, replicate 21 66) ∷ [])
host_payload_may_match_prefix-eq-device_example =
    host_payload_may_match_prefix-eq-device payload ((replicate 21 65, replicate 21 66) ∷ [])
      (omega arith) ((refl, refl), tt)

lower_bound_example :
    Gives
      (host_prefix_bound (map alphabet_at digits) false)
      (be_value 58 0 digits * 58 ^ (34 - length digits))
lower_bound_example = lower_bound digits digits_small (omega arith)

upper_bound_example :
    Gives
      (host_prefix_bound (map alphabet_at digits) true)
      (suc (be_value 58 0 digits) * 58 ^ (34 - length digits) - 1)
upper_bound_example = upper_bound digits digits_small (omega arith)
