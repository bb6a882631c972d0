-- ===== src/Scalars/Numerals.antt =====
-- The texts that `parse_range_start` of native/src/tron.cpp reads as numbers.
use mathlib.Core.Bool.{false≢true}
use tron_wallet_searcher.Common.{
  ℕ, ◌+◌, ◌*◌, ◌/◌, ◌%◌, ◌^◌, ◌<◌, ◌≡◌, ◌⊎◌, refl, ◌∙◌, sym, subst, List, [], ◌∷◌, map, Bool, true,
  false, ◌==◌, ◌||◌, ◌&&◌, leb, length, All, ok, arith, inl, inr, Bool-cases, ∧-split,
}
use native.Mathlib.Nat.{mod-eq_of_lt}
use tron_wallet_searcher.Common.Words.{IsByte}
use tron_wallet_searcher.Hex.{hex_digit, bytes_to_hex}
use tron_wallet_searcher.Hex.RoundTrip.{length-bytes_to_hex}
use tron_wallet_searcher.Hex.Accepts.{is_hex, all_hex, hex_value}
use tron_wallet_searcher.Base58.Value.{be_value}
use tron_wallet_searcher.OpenSsl.{
  natural, Library, be_bytes, IsDocumented, IsReadable, all_decimal, hex_number, decimal_number,
}
use tron_wallet_searcher.OpenSsl.Bytes.{length-be_bytes, be_bytes-All, be_value-be_bytes}
use tron_wallet_searcher.Scalars.{starts_with_0x, has_hex_letter, parse_range_start}

-- A text and its number: hexadecimal digits of either case behind 0x or 0X, hexadecimal digits that
-- are 64 or have a letter among them, and other decimal digits.
pub data Numeral : List ℕ → ℕ → Type 0 where
  prefixed :
      (x : ℕ) (digits : List ℕ)
      → (x ≡ b'x') ⊎ (x ≡ b'X')
      → IsReadable digits
      → all_hex digits ≡ true
      → Numeral (b'0' ∷ x ∷ digits) (hex_number digits)
  hexadecimal :
      (digits : List ℕ)
      → IsReadable digits
      → all_hex digits ≡ true
      → (length digits ≡ 64) ⊎ (all_decimal digits ≡ false)
      → Numeral digits (hex_number digits)
  decimal :
      (digits : List ℕ)
      → IsReadable digits
      → all_decimal digits ≡ true
      → (length digits == 64) ≡ false
      → Numeral digits (decimal_number digits)

no_prefix : (s : List ℕ) → all_hex s ≡ true → starts_with_0x s ≡ false
unfolding starts_with_0x all_hex is_hex
no_prefix [] h = refl
no_prefix (c ∷ []) h = refl
no_prefix (c ∷ d ∷ s) h = ground (arith, h)

decimal_hex : (s : List ℕ) → all_decimal s ≡ true → all_hex s ≡ true
unfolding all_decimal all_hex is_hex
decimal_hex [] h = refl
decimal_hex (c ∷ s) h =
    let (digit, digits) = ∧-split (leb b'0' c && leb c b'9') (all_decimal s) h in
    ground (arith, decimal_hex s digits, digit)

no_letter : (s : List ℕ) → all_decimal s ≡ true → has_hex_letter s ≡ false
unfolding all_decimal has_hex_letter
no_letter [] h = refl
no_letter (c ∷ s) h =
    let (digit, digits) = ∧-split (leb b'0' c && leb c b'9') (all_decimal s) h in
    ground (arith, no_letter s digits, digit)

some_letter : (s : List ℕ) → all_hex s ≡ true → all_decimal s ≡ false → has_hex_letter s ≡ true
unfolding all_decimal has_hex_letter all_hex is_hex
some_letter [] h other = absurd (false≢true (sym other))
some_letter (c ∷ s) h other = elim (Bool-cases (all_decimal s)) [
  | inl rest ↦ ground (arith, h, other, rest)
  | inr rest ↦
      let (digit, digits) = ∧-split (is_hex c) (all_hex s) h in
      ground (arith, some_letter s digits rest)
]

or-true : (b : Bool) → (b || true) ≡ true
or-true true = refl
or-true false = refl

-- Each of these texts is read as its number.
pub parse_range_start-Numeral :
    (lib : Library) (n v : ℕ) (s : List ℕ)
    → IsDocumented lib n
    → Numeral s v
    → parse_range_start lib s ≡ ok (natural v)
unfolding parse_range_start starts_with_0x
parse_range_start-Numeral lib n v s d (prefixed x digits (inl lower) readable h) =
    let some_digits : (length (b'0' ∷ x ∷ digits) == 0) ≡ false = ground arith in
    rw (some_digits, lower, d.reads_hex digits readable h) refl
parse_range_start-Numeral lib n v s d (prefixed x digits (inr upper) readable h) =
    let some_digits : (length (b'0' ∷ x ∷ digits) == 0) ≡ false = ground arith in
    rw (some_digits, upper, d.reads_hex digits readable h) refl
parse_range_start-Numeral lib n v s d (hexadecimal digits readable h how) =
    let some_digits : (length digits == 0) ≡ false = ground (arith, readable.0) in
    let hex : ((length digits == 64) || has_hex_letter digits) ≡ true = elim how [
      | inl long ↦ rw long refl
      | inr letter ↦ rw (some_letter digits h letter) (or-true (length digits == 64))
    ] in
    rw (some_digits, no_prefix digits h, hex, d.reads_hex digits readable h) refl
parse_range_start-Numeral lib n v s d (decimal digits readable h short) =
    let some_digits : (length digits == 0) ≡ false = ground (arith, readable.0) in
    rw
      (
        some_digits,
        no_prefix digits (decimal_hex digits h),
        short,
        no_letter digits h,
        d.reads_decimal digits readable h,
      )
      refl

-- The text of a number: 64 hexadecimal digits.
abbrev pub scalar_text : ℕ → List ℕ
scalar_text v = bytes_to_hex (be_bytes 32 v)

pub scalar_text-size : (v : ℕ) → length (scalar_text v) ≡ 64
scalar_text-size v = omega (arith, length-bytes_to_hex (be_bytes 32 v), length-be_bytes 32 v)

digit_hex : (d : ℕ) → d < 16 → is_hex (hex_digit d) ≡ true
unfolding is_hex hex_digit
digit_hex d h = ground arith

digit_value : (d : ℕ) → d < 16 → hex_value (hex_digit d) ≡ d
unfolding hex_value hex_digit
digit_value d h = ground arith

pub bytes_to_hex-hex : (bytes : List ℕ) → All IsByte bytes → all_hex (bytes_to_hex bytes) ≡ true
unfolding all_hex bytes_to_hex
bytes_to_hex-hex [] h = refl
bytes_to_hex-hex (b ∷ bytes) h =
    rw
      (
        digit_hex (b / 16) (omega (arith, h.0)),
        digit_hex (b % 16) (omega arith),
        bytes_to_hex-hex bytes h.1,
      )
      refl

hex_number-bytes :
    (bytes : List ℕ) (acc : ℕ)
    → All IsByte bytes
    → be_value 16 acc (map hex_value (bytes_to_hex bytes)) ≡ be_value 256 acc bytes
unfolding bytes_to_hex
hex_number-bytes [] acc h = refl
hex_number-bytes (b ∷ bytes) acc h =
    let joined : (acc * 16 + b / 16) * 16 + b % 16 ≡ acc * 256 + b = omega arith in
    rw (digit_value (b / 16) (omega (arith, h.0)), digit_value (b % 16) (omega arith), joined)
      (hex_number-bytes bytes (acc * 256 + b) h.1)

pub scalar_text-number : (v : ℕ) → v < 2 ^ 256 → hex_number (scalar_text v) ≡ v
scalar_text-number v fits =
    hex_number-bytes (be_bytes 32 v) 0 (be_bytes-All 32 v)
    ∙ be_value-be_bytes 32 v
    ∙ mod-eq_of_lt (omega arith)

pub scalar_text-Numeral : (v : ℕ) → v < 2 ^ 256 → Numeral (scalar_text v) v
scalar_text-Numeral v fits = subst (Numeral (scalar_text v)) (scalar_text-number v fits) (
    hexadecimal (scalar_text v)
      (omega (arith, scalar_text-size v), omega (arith, scalar_text-size v))
      (bytes_to_hex-hex (be_bytes 32 v) (be_bytes-All 32 v)) (inl (scalar_text-size v)))
