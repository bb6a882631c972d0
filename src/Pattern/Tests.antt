-- ===== src/Pattern/Tests.antt =====
-- Runs of the matcher and of the check of a pattern.
use tron_wallet_searcher.Common.{◌≡◌, ◌↔◌, ◌≤◌, refl, true, false, ok, text, length, arith}
use tron_wallet_searcher.Common.{text_eq}
use tron_wallet_searcher.Base58.{base58_alphabet}
use tron_wallet_searcher.Pattern.Loose.{loose_equal_iff}
use tron_wallet_searcher.Pattern.Matches.{
  Matches, matches_pattern_iff, device_pattern_matches-eq-matches_pattern,
}
use tron_wallet_searcher.Pattern.Valid.{IsVanity, validate_pattern_iff, IsPattern-bounds}
use tron_wallet_searcher.Pattern.{
  matches_pattern, prefix_matches, suffix_matches, loose_equal, validate_pattern, check_lengths,
  check_characters, pattern_lengths, contains, allowed_first_custom, to_lower,
  device_pattern_matches,
}

matches_two :
    matches_pattern (text "TDvSsdrNM5eeXNL3czpa6AxLDHZA9nwe9K") (text "DV") (text "9k") ≡ true
unfolding matches_pattern prefix_matches suffix_matches loose_equal text
matches_two = refl

matches_exact_first :
    matches_pattern (text "TDvSsdrNM5eeXNL3czpa6AxLDHZA9nwe9K") (text "dv") (text "9k") ≡ false
unfolding matches_pattern prefix_matches suffix_matches loose_equal text
matches_exact_first = refl

validates : validate_pattern (text "2x2") (text "Dv") (text "9K") ≡ ok tt
unfolding validate_pattern check_lengths check_characters pattern_lengths contains
    allowed_first_custom text text_eq base58_alphabet
validates = refl

loose_equal_iff_example : (loose_equal b'k' b'K' ≡ true) ↔ (to_lower b'k' ≡ to_lower b'K')
loose_equal_iff_example = loose_equal_iff b'k' b'K'

matches_pattern_iff_example :
    (matches_pattern (text "TDvSsdrNM5eeXNL3czpa6AxLDHZA9nwe9K") (text "DV") (text "9k") ≡ true)
    ↔ Matches (text "TDvSsdrNM5eeXNL3czpa6AxLDHZA9nwe9K") (text "DV") (text "9k")
unfolding text
matches_pattern_iff_example =
    matches_pattern_iff (text "TDvSsdrNM5eeXNL3czpa6AxLDHZA9nwe9K") (text "DV") (text "9k")
      (omega arith)

device_pattern_matches-eq-matches_pattern_example :
    device_pattern_matches (text "TDvSsdrNM5eeXNL3czpa6AxLDHZA9nwe9K") (text "DV") (text "9k")
    ≡ matches_pattern (text "TDvSsdrNM5eeXNL3czpa6AxLDHZA9nwe9K") (text "DV") (text "9k")
unfolding text
device_pattern_matches-eq-matches_pattern_example =
    device_pattern_matches-eq-matches_pattern (text "TDvSsdrNM5eeXNL3czpa6AxLDHZA9nwe9K")
      (text "DV") (text "9k") refl refl (omega arith)

validate_pattern_iff_example :
    (validate_pattern (text "2x2") (text "Dv") (text "9K") ≡ ok tt)
    ↔ IsVanity (text "2x2") (text "Dv") (text "9K")
validate_pattern_iff_example = validate_pattern_iff (text "2x2") (text "Dv") (text "9K")

IsPattern-bounds_example :
    (2 ≤ length (text "Dv"))
    × (length (text "Dv") ≤ 4)
    × (2 ≤ length (text "9K"))
    × (length (text "9K") ≤ 5)
IsPattern-bounds_example = IsPattern-bounds (text "2x2") (text "Dv") (text "9K") validates
