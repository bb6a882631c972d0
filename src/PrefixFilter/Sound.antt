-- ===== src/PrefixFilter/Sound.antt =====
-- The prefilter of native/src/cuda_runtime.cu against the matcher of native/src/tron.cpp.
use tron_wallet_searcher.Common.{
  ok-injective, ℕ, zero, suc, ◌+◌, ◌-◌, ◌^◌, ◌≤◌, ◌<◌, ◌≡◌, refl, sym, ap, ap₂, ◌∙◌, List, [], ◌∷◌,
  ◌++◌, map, true, length, length-take, length-drop, length-map, take-append-drop, get_or, take,
  drop, All, All-take, All-drop, ok, arith, text,
}
use tron_wallet_searcher.Common.Words.{IsByte, all_below, all_below_sound}
use tron_wallet_searcher.Pattern.{contains, to_lower, matches_pattern, validate_pattern}
use tron_wallet_searcher.Pattern.Loose.{loose_equal_iff}
use tron_wallet_searcher.Pattern.Matches.{Matches, matches_pattern_iff}
use tron_wallet_searcher.Pattern.Valid.{IsBase58, validate_pattern-IsPattern, IsPattern-bounds}
use tron_wallet_searcher.Base58.{base58_alphabet, alphabet_at, base58_encode}
use tron_wallet_searcher.Base58.Value.{be_value}
use tron_wallet_searcher.Base58.Carry.{IsDigit}
use tron_wallet_searcher.PrefixFilter.{
  variable_positions, toggle_bits, prefix_interval, populate_prefix_intervals, payload_size,
  device_payload_may_match_prefix,
}
use tron_wallet_searcher.PrefixFilter.Integer.{number}
use tron_wallet_searcher.PrefixFilter.Decode.{base58_encode-digits}
use tron_wallet_searcher.PrefixFilter.Bound.{within_bounds}
use tron_wallet_searcher.PrefixFilter.Compare.{compare-le}
use tron_wallet_searcher.PrefixFilter.Variants.{Spells, toggle_bits-Spells}
use tron_wallet_searcher.PrefixFilter.Rows.{
  Interval, prefix_interval-Interval, in_row, populate_prefix_intervals-total,
  variant_intervals-passes,
}

-- The payload of a text of 34 digits lies in the row of every prefix of the text.
row-contains :
    (front rest payload : List ℕ) (row : List ℕ × List ℕ)
    → All IsDigit front
    → All IsDigit rest
    → length front ≤ 34
    → length rest ≡ 34 - length front
    → length payload ≡ 25
    → All IsByte payload
    → be_value 58 0 (front ++ rest) ≡ number payload
    → Interval front row
    → in_row (take payload_size payload) row ≡ true
unfolding in_row
row-contains front rest payload row h k short size length_25 each value r =
    let (low, high) = within_bounds front h short rest k size in
    let lower =
      compare-le payload_size r.lower payload r.lower_holds.each each
        (r.lower_holds.size ∙ sym length_25) (omega (arith, r.lower_holds.holds)) in
    let upper =
      compare-le payload_size payload r.upper each r.upper_holds.each
        (length_25 ∙ sym r.upper_holds.size) (omega (arith, r.upper_holds.holds)) in
    rw (r.cut, lower.1, upper.0) refl

alphabet_known : all_below 58 (λ d. contains base58_alphabet (alphabet_at d)) ≡ true
unfolding all_below contains alphabet_at base58_alphabet text
alphabet_known = refl

digits-IsBase58 : (digits : List ℕ) → All IsDigit digits → All IsBase58 (map alphabet_at digits)
digits-IsBase58 [] h = tt
digits-IsBase58 (d ∷ digits) h =
    (all_below_sound 58 _ d alphabet_known h.0, digits-IsBase58 digits h.1)

-- Characters that agree up to case, place by place, are a spelling.
agree-Spells :
    (cs xs : List ℕ)
    → length cs ≤ length xs
    → ((i : ℕ) → i < length cs → to_lower (get_or xs i 0) ≡ to_lower (get_or cs i 0))
    → All IsBase58 xs
    → Spells (take (length cs) xs) cs
agree-Spells [] xs fits same h = tt
agree-Spells (c ∷ cs) [] fits same h = absurd (omega arith)
agree-Spells (c ∷ cs) (x ∷ xs) fits same h = (
  (loose_equal_iff x c).1 (same 0 (omega arith)),
  h.0,
  agree-Spells cs xs (omega arith) (λ i lt. same (suc i) (omega arith)) h.1,
)

-- A matching address begins with a T, the first character of the prefix and a spelling of the rest.
front-Spells :
    (address suffix : List ℕ) (p : ℕ) (cs : List ℕ)
    → Matches address (p ∷ cs) suffix
    → All IsBase58 address
    → length cs ≤ 32
    → (ts : List ℕ) × Spells ts cs × (take (suc (suc (length cs))) address ≡ b'T' ∷ p ∷ ts)
front-Spells [] suffix p cs m each short = absurd (omega (arith, m.size))
front-Spells (a ∷ []) suffix p cs m each short = absurd (omega (arith, m.size))
front-Spells (a ∷ b ∷ xs) suffix p cs m each short =
    let size : length xs ≡ 32 = omega (arith, m.size) in
    let same : (i : ℕ) → i < length cs → to_lower (get_or xs i 0) ≡ to_lower (get_or cs i 0) =
      λ i lt.
        let e : suc i + 1 ≡ suc (suc i) = omega arith in
        rw e at (m.prefixed (suc i) (omega arith)) in
    (
      take (length cs) xs,
      agree-Spells cs xs (omega arith) same each.1.1,
      ap₂ (λ (u v : ℕ). u ∷ v ∷ take (length cs) xs) m.first (m.prefixed 0 (omega arith)),
    )

map-take :
    (n : ℕ) (digits : List ℕ) → map alphabet_at (take n digits) ≡ take n (map alphabet_at digits)
map-take zero digits = refl
map-take (suc n) [] = refl
map-take (suc n) (d ∷ digits) = ap (◌∷◌ (alphabet_at d)) (map-take n digits)

-- The table of the prefix of a matching address has a row that the payload lies in.
hit :
    (prefix suffix payload digits : List ℕ)
    → All IsBase58 prefix
    → 1 ≤ length prefix
    → length prefix ≤ 4
    → Matches (map alphabet_at digits) prefix suffix
    → All IsDigit digits
    → length payload ≡ 25
    → All IsByte payload
    → be_value 58 0 digits ≡ number payload
    → (rows : List (List ℕ × List ℕ)) → populate_prefix_intervals prefix ≡ ok rows
    → device_payload_may_match_prefix (take payload_size payload) rows ≡ true
unfolding populate_prefix_intervals
hit [] suffix payload digits known some_left short m digit size each value rows runs =
    absurd (omega arith)
hit (p ∷ cs) suffix payload digits known some_left short m digit size each value rows runs =
    let n = suc (suc (length cs)) in
    let front = take n digits in
    let rest = drop n digits in
    let length_34 : length digits ≡ 34 = sym (length-map alphabet_at digits) ∙ m.size in
    let front_size : length front ≡ n = length-take n digits (omega arith) in
    let (row, made, r) =
      prefix_interval-Interval front (All-take IsDigit n digits digit) (omega arith) in
    let inside =
      row-contains front rest payload row (All-take IsDigit n digits digit)
        (All-drop IsDigit n digits digit) (omega arith) (omega (arith, length-drop n digits)) size
        each (ap (be_value 58 0) (take-append-drop n digits) ∙ value) r in
    let (ts, spelled, begins) =
      front-Spells (map alphabet_at digits) suffix p cs m (digits-IsBase58 digits digit)
        (omega arith) in
    let (w, below, toggles) = toggle_bits-Spells cs ts (b'T' ∷ p ∷ []) 1 refl spelled in
    let same : toggle_bits w (variable_positions 1 cs) (b'T' ∷ p ∷ cs) ≡ map alphabet_at front =
      toggles ∙ sym begins ∙ sym (map-take n digits) in
    variant_intervals-passes (variable_positions 1 cs) (p ∷ cs) (take payload_size payload)
      (2 ^ length (variable_positions 1 cs)) 0 w rows row runs (omega arith) (omega arith)
      (ap prefix_interval same ∙ made) inside

-- For a valid pattern and a payload of 25 bytes whose address matches it, the table of the prefix is
-- filled without an exception, and the device's prefilter lets the payload pass: it drops no match.
pub prefilter_sound :
    (pattern prefix suffix payload address : List ℕ)
    → validate_pattern pattern prefix suffix ≡ ok tt
    → length payload ≡ 25
    → All IsByte payload
    → base58_encode payload ≡ ok address
    → matches_pattern address prefix suffix ≡ true
    → (rows : List (List ℕ × List ℕ)) × (populate_prefix_intervals prefix ≡ ok rows)
      × (device_payload_may_match_prefix (take payload_size payload) rows ≡ true)
prefilter_sound pattern prefix suffix payload address valid size each encodes accepted =
    let (least, most, least', most') = IsPattern-bounds pattern prefix suffix valid in
    let v = (validate_pattern-IsPattern pattern prefix suffix).0 valid in
    let (digits, runs, digit, value) = base58_encode-digits payload each in
    let spelled : address ≡ map alphabet_at digits = ok-injective (sym encodes ∙ runs) in
    let m : Matches (map alphabet_at digits) prefix suffix =
      (matches_pattern_iff (map alphabet_at digits) prefix suffix (omega arith)).0
        (rw spelled at accepted) in
    let (rows, fills, shapes, count, few) =
      populate_prefix_intervals-total prefix v.prefix_characters (omega arith) most in
    (
      rows,
      fills,
      hit prefix suffix payload digits v.prefix_characters (omega arith) most m digit size each
          value rows fills,
    )
