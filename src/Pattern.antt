-- ===== src/Pattern.antt =====
-- Vanity patterns: `loose_equal`, `matches_pattern` and `validate_pattern` of native/src/tron.cpp,
-- and the device copies `device_ascii_letter`, `device_ascii_lower` and `device_pattern_matches` of
-- native/src/cuda_runtime.cu.
pub mod Loose
pub mod Matches
pub mod Alphabet
pub mod Valid
mod Tests
use tron_wallet_searcher.Common.{
  ℕ, ◌+◌, ◌-◌, ◌^◌, ◌%◌, List, [], ◌∷◌, ◌++◌, Bool, true, false, ◌&&◌, ◌||◌, not, ◌==◌, leb,
  if◌then◌else◌, length, get_or, Option, none, some, Result, ok, err, Exception, invalid_argument,
  ◌>>=◌, ◌>>◌, throw_if, text, text_eq,
}
use tron_wallet_searcher.Common.Words.{u64}
use tron_wallet_searcher.Base58.{base58_alphabet}

-- `std::isalpha` and `std::tolower` of an unsigned char, in the C locale.
unfoldable pub is_alpha : ℕ → Bool
is_alpha c = (leb b'A' c && leb c b'Z') || (leb b'a' c && leb c b'z')

unfoldable pub to_lower : ℕ → ℕ
to_lower c = if leb b'A' c && leb c b'Z' then c + 32 else c

unfoldable pub loose_equal : ℕ → ℕ → Bool
unfolding is_alpha to_lower
loose_equal left right =
    if left == right
    then true
    else is_alpha left && is_alpha right && (to_lower left == to_lower right)

-- The loop over the prefix, from `index` on: the first character behind the T is exact.
unfoldable pub prefix_matches : List ℕ → ℕ → List ℕ → Bool
prefix_matches address index [] = true
prefix_matches address index (c ∷ cs) =
    let rest = prefix_matches address (index + 1) cs in
    let actual = get_or address (index + 1) 0 in
    if if index == 0 then actual == c else loose_equal actual c then rest else false

unfoldable pub suffix_matches : List ℕ → ℕ → List ℕ → Bool
suffix_matches address position [] = true
suffix_matches address position (c ∷ cs) =
    let rest = suffix_matches address (position + 1) cs in
    if loose_equal (get_or address position 0) c then rest else false

-- `address.size() - suffix.size()` is of type size_t.
unfoldable pub matches_pattern : List ℕ → List ℕ → List ℕ → Bool
matches_pattern address prefix suffix =
    if not (length address == 34) || not (get_or address 0 0 == b'T')
    then false
    else if prefix_matches address 0 prefix
    then suffix_matches address (u64 (length address + 2 ^ 64 - length suffix)) suffix
    else false

-- The device copy. The pattern's characters lie in fixed arrays, of which it reads the first ones.
unfoldable pub device_ascii_letter : ℕ → Bool
device_ascii_letter c = (leb b'A' c && leb c b'Z') || (leb b'a' c && leb c b'z')

unfoldable pub device_ascii_lower : ℕ → ℕ
device_ascii_lower c = if leb b'A' c && leb c b'Z' then c + 32 else c

-- The test by which both loops give up.
unfoldable pub device_differs : ℕ → ℕ → Bool
unfolding device_ascii_letter device_ascii_lower
device_differs actual requested =
    not (actual == requested)
    && (not (device_ascii_letter actual)
        || not (device_ascii_letter requested)
        || not (device_ascii_lower actual == device_ascii_lower requested))

unfoldable pub device_prefix_matches : List ℕ → ℕ → List ℕ → Bool
device_prefix_matches address index [] = true
device_prefix_matches address index (c ∷ cs) =
    let rest = device_prefix_matches address (index + 1) cs in
    let actual = get_or address (index + 1) 0 in
    if index == 0
    then if not (actual == c) then false else rest
    else if device_differs actual c
    then false
    else rest

unfoldable pub device_suffix_matches : List ℕ → ℕ → List ℕ → Bool
device_suffix_matches address position [] = true
device_suffix_matches address position (c ∷ cs) =
    let rest = device_suffix_matches address (position + 1) cs in
    if device_differs (get_or address position 0) c then false else rest

unfoldable pub device_pattern_matches : List ℕ → List ℕ → List ℕ → Bool
device_pattern_matches address prefix suffix =
    if device_prefix_matches address 0 prefix
    then device_suffix_matches address (34 - length suffix) suffix
    else false

unfoldable pub contains : List ℕ → ℕ → Bool
contains [] c = false
contains (x ∷ xs) c = (x == c) || contains xs c

unfoldable pub allowed_first_custom : List ℕ
allowed_first_custom = text "9ABCDEFGHJKLMNPQRSTUVWXYZ"

-- The lengths of prefix and suffix of each pattern.
unfoldable pub pattern_lengths : List ℕ → Option (ℕ × ℕ)
pattern_lengths pattern =
    if text_eq pattern (text "3x4")
    then some (3, 4)
    else if text_eq pattern (text "2x5")
    then some (2, 5)
    else if text_eq pattern (text "4x3")
    then some (4, 3)
    else if text_eq pattern (text "2x2")
    then some (2, 2)
    else none

abbrev pub unknown_pattern : Exception
unknown_pattern = invalid_argument (text "Pattern must be one of: 3x4, 2x5, 4x3, or 2x2.")

-- `std::to_string` of a length, which is a single digit.
abbrev pub wrong_lengths : List ℕ → ℕ → ℕ → Exception
wrong_lengths pattern first second = invalid_argument (
    text "Pattern "
    ++ pattern
    ++ text " requires "
    ++ (b'0' + first) ∷ []
    ++ text " characters after T and "
    ++ (b'0' + second) ∷ []
    ++ text " suffix characters.")

abbrev pub not_base58 : Exception
not_base58 =
    invalid_argument
      (text "Pattern contains an invalid TRON Base58 character (0, O, I, and l are excluded).")

abbrev pub bad_first : Exception
bad_first =
    invalid_argument (text "The first character after T must be an uppercase Base58 letter or 9.")

unfoldable pub check_characters : List ℕ → Result (Unit {0})
check_characters [] = ok tt
check_characters (c ∷ cs) = do
  throw_if (not (contains base58_alphabet c)) not_base58
  check_characters cs

unfoldable pub check_lengths : List ℕ → List ℕ → List ℕ → Option (ℕ × ℕ) → Result (Unit {0})
check_lengths pattern prefix suffix none = err unknown_pattern
check_lengths pattern prefix suffix (some (first, second)) =
    throw_if (not (length prefix == first) || not (length suffix == second))
      (wrong_lengths pattern first second)

unfoldable pub validate_pattern : List ℕ → List ℕ → List ℕ → Result (Unit {0})
validate_pattern pattern prefix suffix = do
  check_lengths pattern prefix suffix (pattern_lengths pattern)
  check_characters (prefix ++ suffix)
  throw_if (not (contains allowed_first_custom (get_or prefix 0 0))) bad_first
