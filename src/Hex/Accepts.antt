-- ===== src/Hex/Accepts.antt =====
-- The texts that `hex_to_bytes` of native/src/tron.cpp accepts, and those that it refuses.
use mathlib.Core.Bool.{false≢true}
use tron_wallet_searcher.Common.{
  ℕ, ◌+◌, ◌-◌, ◌*◌, ◌/◌, ◌%◌, ◌<◌, ◌≡◌, refl, List, [], ◌∷◌, map, length, All, ok, err, Bool, true,
  false, ◌||◌, ◌&&◌, leb, if◌then◌else◌, arith, inl, inr, Bool-cases, ∧-split, sym, ◌==◌, ==_iff,
}
use tron_wallet_searcher.Common.Words.{IsByte}
use tron_wallet_searcher.Hex.{
  nibble, hex_pairs, hex_to_bytes, hex_digit, bytes_to_hex, odd_length, not_hex,
}
use tron_wallet_searcher.Hex.RoundTrip.{join_nibbles}

-- A hexadecimal digit, and its lower-case form.
unfoldable pub is_hex : ℕ → Bool
is_hex c = (leb b'0' c && leb c b'9') || (leb b'a' c && leb c b'f') || (leb b'A' c && leb c b'F')

pub lower_hex : ℕ → ℕ
lower_hex c = if leb b'A' c && leb c b'F' then c + 32 else c

unfoldable pub all_hex : List ℕ → Bool
all_hex [] = true
all_hex (c ∷ s) = is_hex c && all_hex s

-- The number that a hexadecimal digit stands for.
unfoldable pub hex_value : ℕ → ℕ
hex_value c =
    if leb b'0' c && leb c b'9'
    then c - b'0'
    else if leb b'a' c && leb c b'f'
    then c - 87
    else c - 55

nibble-is_hex : (c : ℕ) → is_hex c ≡ true → nibble c ≡ ok (hex_value c)
unfolding nibble is_hex hex_value
nibble-is_hex c h = ground arith

pub hex_value-lt : (c : ℕ) → is_hex c ≡ true → hex_value c < 16
unfolding is_hex hex_value
hex_value-lt c h = ground arith

hex_digit-hex_value : (c : ℕ) → is_hex c ≡ true → hex_digit (hex_value c) ≡ lower_hex c
unfolding is_hex hex_value hex_digit lower_hex
hex_digit-hex_value c h = ground arith

nibble-not_hex : (c : ℕ) → is_hex c ≡ false → nibble c ≡ err not_hex
unfolding nibble is_hex
nibble-not_hex c h = ground arith

-- What reading `s` gives, if it is accepted.
abbrev Reads : List ℕ → List ℕ → Type 0
Reads s bytes = (hex_pairs s ≡ ok bytes) × All IsByte bytes × (bytes_to_hex bytes ≡ map lower_hex s)

hex_pairs-accepts :
    (s : List ℕ) → length s % 2 ≡ 0 → all_hex s ≡ true → (bytes : List ℕ) × Reads s bytes
unfolding hex_pairs bytes_to_hex all_hex
hex_pairs-accepts [] even h = ([], (refl, tt, refl))
hex_pairs-accepts (c ∷ []) even h = absurd (omega arith)
hex_pairs-accepts (c ∷ d ∷ s) even h =
    let (hc, hs) = ∧-split (is_hex c) (is_hex d && all_hex s) h in
    let (hd, ht) = ∧-split (is_hex d) (all_hex s) hs in
    let (bytes, (reads, each, prints)) = hex_pairs-accepts s (omega arith) ht in
    let high = hex_value-lt c hc in
    let low = hex_value-lt d hd in
    let joined = join_nibbles (hex_value c) (hex_value d) high low in
    let byte = hex_value c * 16 + hex_value d in
    let up : byte / 16 ≡ hex_value c = omega arith in
    let down : byte % 16 ≡ hex_value d = omega arith in
    (
      byte ∷ bytes,
      (
        rw (nibble-is_hex c hc, nibble-is_hex d hd, reads, joined),
        (omega arith, each),
        rw (up, down, hex_digit-hex_value c hc, hex_digit-hex_value d hd, prints),
      ),
    )

hex_pairs-rejects : (s : List ℕ) → length s % 2 ≡ 0 → all_hex s ≡ false → hex_pairs s ≡ err not_hex
unfolding hex_pairs all_hex
hex_pairs-rejects [] even h = absurd (false≢true (sym h))
hex_pairs-rejects (c ∷ []) even h = absurd (omega arith)
hex_pairs-rejects (c ∷ d ∷ s) even h = elim (Bool-cases (is_hex c)) [
  | inr bad ↦ rw (nibble-not_hex c bad)
  | inl hc ↦ elim (Bool-cases (is_hex d)) [
    | inr bad ↦ rw (nibble-is_hex c hc, nibble-not_hex d bad)
    | inl hd ↦ rw (
      nibble-is_hex c hc,
      nibble-is_hex d hd,
      hex_pairs-rejects s (omega arith) (rw (hc, hd) at h),
    )
  ]
]

-- An even number of hexadecimal digits of either case is read, as bytes that print as the same
-- text in lower case.
pub hex_to_bytes-accepts :
    (s : List ℕ)
    → length s % 2 ≡ 0
    → all_hex s ≡ true
    → (bytes : List ℕ) × (hex_to_bytes s ≡ ok bytes)
      × All IsByte bytes
      × (bytes_to_hex bytes ≡ map lower_hex s)
unfolding hex_to_bytes
hex_to_bytes-accepts s even h =
    let (bytes, (reads, each, prints)) = hex_pairs-accepts s even h in
    (bytes, rw even reads, each, prints)

-- Every other text is refused: for its length if that is odd, and else for a bad character.
pub hex_to_bytes-rejects :
    (s : List ℕ)
    → (length s % 2 == 0 && all_hex s) ≡ false
    → hex_to_bytes s ≡ err (if length s % 2 == 0 then not_hex else odd_length)
unfolding hex_to_bytes
hex_to_bytes-rejects s h = elim (Bool-cases (length s % 2 == 0)) [
  | inl even ↦ rw even (hex_pairs-rejects s ((==_iff (length s % 2) 0).0 even) (rw even at h))
  | inr odd ↦ rw odd
]
