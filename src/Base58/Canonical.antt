-- ===== src/Base58/Canonical.antt =====
-- The number of digits that `base58_encode` of native/src/tron.cpp writes, and the first of them.
use tron_wallet_searcher.Common.{
  ℕ, zero, suc, ◌+◌, ◌-◌, ◌*◌, ◌/◌, ◌^◌, ◌≡◌, ◌<◌, ◌≤◌, refl, ap, ◌∙◌, sym, subst, List, [], ◌∷◌,
  length, All, All-take, arith, get_or, map, take, reverse, replicate, length-take, length-map,
  length-reverse, text, ok, ok-injective, ==_iff, Bool-cases, inl, inr, not, ◌==◌, ltb, ◌||◌,
}
use tron_wallet_searcher.Common.Words.{u32, IsByte}
use tron_wallet_searcher.Base58.{
  add_byte, encode_loop, base58_encode, base58_text, base58_alphabet, alphabet_at, leading_zeroes,
  buffer_size,
}
use tron_wallet_searcher.Base58.Value.{
  le_value, be_value, be_value-lt, be_value-acc, be_value-reverse,
}
use tron_wallet_searcher.Base58.Carry.{IsDigit, Clean, Clean-replicate, add_byte-IsAdded}
use tron_wallet_searcher.Base58.Encode.{encode_loop-total, zeroes-IsDigit, Clean-take, All-reverse}
use native.Mathlib.Nat.{pow-suc, pow-le-pow_right}

-- A pass that goes beyond the old digits ends in a place that the number reaches.
add_byte-reaches :
    (ds : List ℕ) (carry size processed more : ℕ)
    → carry < 256
    → All IsDigit ds
    → (add_byte ds carry size processed).processed ≡ processed + suc more
    → size < processed + suc more
    → 58 ^ more ≤ carry + 256 * le_value 58 ds
unfolding add_byte
add_byte-reaches [] carry size processed more hc h goes beyond = absurd (omega (arith, goes))
add_byte-reaches (d ∷ ds) carry size processed zero hc h goes beyond =
    elim (Bool-cases (not (carry == 0) || ltb processed size)) [
      | inl t ↦ ground (arith, t)
      | inr f ↦ let here = rw f at goes in absurd (omega (arith, here))
    ]
add_byte-reaches (d ∷ ds) carry size processed (suc n) hc h goes beyond =
    elim (Bool-cases (not (carry == 0) || ltb processed size)) [
      | inl t ↦
          let cast : u32 (carry + 256 * d) ≡ carry + 256 * d = omega (arith, h.0) in
          let here = rw (t, cast) at goes in
          let rest =
            add_byte-reaches ds ((carry + 256 * d) / 58) size (processed + 1) n (omega (arith, h.0))
              h.1 (omega (arith, here)) (omega arith) in
          omega (arith, rest, pow-suc 58 n)
      | inr f ↦ let here = rw f at goes in absurd (omega (arith, here))
    ]

-- Digits that the number needs.
abbrev pub IsTight : ℕ → ℕ → Type 0
IsTight size number = (n : ℕ) → size ≡ suc n → 58 ^ n ≤ number

add_byte-IsTight :
    (ds : List ℕ) (byte size : ℕ)
    → byte < 256
    → All IsDigit ds
    → IsTight size (le_value 58 ds)
    → IsTight (add_byte ds byte size 0).processed (byte + 256 * le_value 58 ds)
add_byte-IsTight ds byte size hb h tight n runs = elim (Bool-cases (ltb size (suc n))) [
  | inl t ↦ add_byte-reaches ds byte size 0 n hb h (omega (arith, runs)) (ground (arith, t))
  | inr f ↦
      let before : size ≡ suc (size - 1) = ground (arith, f) in
      let old = tight (size - 1) before in
      let fewer : n ≤ size - 1 = ground (arith, f) in
      let powers = pow-le-pow_right {n = 58} (omega arith) fewer in omega (arith, old, powers)
]

encode_loop-IsTight :
    (bytes ds ds' : List ℕ) (size size' : ℕ)
    → All IsByte bytes
    → All IsDigit ds
    → Clean size ds
    → IsTight size (le_value 58 ds)
    → encode_loop bytes ds size ≡ ok (ds', size')
    → IsTight size' (le_value 58 ds')
unfolding encode_loop
encode_loop-IsTight [] ds ds' size size' h each clean tight runs =
    let same = ok-injective runs in
    subst (λ (r : List ℕ × ℕ). IsTight r.1 (le_value 58 r.0)) same tight
encode_loop-IsTight (byte ∷ bytes) ds ds' size size' h each clean tight runs =
    let r = add_byte ds byte size 0 in
    let whole : size - 0 ≡ size = omega arith in
    let a = add_byte-IsAdded ds byte size 0 h.0 each (rw whole clean) in
    let all : r.processed - 0 ≡ r.processed = omega arith in
    elim (Bool-cases (r.carry == 0)) [
      | inl t ↦
          let onward = rw t at runs in
          let none_left = (==_iff r.carry 0).0 t in
          let number : le_value 58 r.digits ≡ byte + 256 * le_value 58 ds =
            omega (arith, a.value, ap (λ (k : ℕ). k * 58 ^ length ds) none_left) in
          let reached = add_byte-IsTight ds byte size h.0 each tight in
          encode_loop-IsTight bytes r.digits ds' r.processed size' h.1 a.digits (rw all at a.clean)
            (subst (IsTight r.processed) (sym number) reached) onward
      | inr f ↦ let stopped = rw f at runs in absurd (ground (arith, stopped))
    ]

-- The digits of a number, as many as it needs.
digit_count :
    (number size : ℕ)
    → IsTight size number
    → number < 58 ^ size
    → 58 ^ 33 ≤ number
    → number < 58 ^ 34
    → size ≡ 34
digit_count number size tight fits least most = elim (Bool-cases (ltb size 34)) [
  | inl t ↦
      let few : size ≤ 33 = ground (arith, t) in
      absurd (omega (arith, pow-le-pow_right {n = 58} (omega arith) few))
  | inr f ↦ elim (Bool-cases (ltb 34 size)) [
    | inl t ↦
        let before : size ≡ suc (size - 1) = ground (arith, t) in
        let many : 34 ≤ size - 1 = ground (arith, t) in
        absurd
          (omega (arith, tight (size - 1) before, pow-le-pow_right {n = 58} (omega arith) many))
    | inr g ↦ ground (arith, f, g)
  ]
]

first_digit :
    (digits : List ℕ)
    → length digits ≡ 34
    → All IsDigit digits
    → 0x41 * 256 ^ 24 ≤ be_value 58 0 digits
    → be_value 58 0 digits < 0x42 * 256 ^ 24
    → get_or (map alphabet_at digits) 0 0 ≡ b'T'
unfolding alphabet_at base58_alphabet text
first_digit [] size h least most = absurd (omega arith)
first_digit (d ∷ ds) size h least most =
    let rest = be_value-lt 58 ds h.1 in
    let count : length ds ≡ 33 = omega (arith, size) in
    let below : be_value 58 0 ds < 58 ^ 33 = rw count at rest in
    let split = be_value-acc 58 (0 * 58 + d) ds in
    let placed : be_value 58 (0 * 58 + d) ds ≡ (0 * 58 + d) * 58 ^ 33 + be_value 58 0 ds =
      rw count at split in
    let t : d ≡ 26 = omega (arith, below, placed, least, most) in rw t refl

-- A payload of 25 bytes that begins with the version byte 0x41 is encoded, to a text of 34
-- characters that begins with a T.
pub base58_encode_tron :
    (bytes : List ℕ)
    → length bytes ≡ 24
    → All IsByte bytes
    → (address : List ℕ) × (base58_encode (0x41 ∷ bytes) ≡ ok address)
      × (length address ≡ 34)
      × (get_or address 0 0 ≡ b'T')
unfolding base58_encode base58_text leading_zeroes
base58_encode_tron bytes size h =
    let cells = buffer_size (length (0x41 ∷ bytes) - 0) in
    let each : All IsByte (0x41 ∷ bytes) = (omega arith, h) in
    let (digits, used, runs, b) = encode_loop-total (0x41 ∷ bytes) each in
    let tight =
      encode_loop-IsTight (0x41 ∷ bytes) (replicate cells 0) digits 0 used each
        (zeroes-IsDigit cells) (Clean-replicate 0 cells) (λ n none. absurd (omega (arith, none)))
        runs in
    let written = reverse (take used digits) in
    let kept = All-take IsDigit used digits b.each in
    let number = le_value 58 digits in
    let holds : be_value 58 0 written ≡ number =
      be_value-reverse 58 (take used digits) ∙ Clean-take used digits b.clean in
    let count : length written ≡ used =
      length-reverse (take used digits)
      ∙ length-take used digits (omega (arith, b.within, b.room)) in
    let each_digit = All-reverse (take used digits) kept in
    let fits : number < 58 ^ used = rw (count, holds) at (be_value-lt 58 written each_digit) in
    let below : be_value 256 0 bytes < 256 ^ 24 = rw size at (be_value-lt 256 bytes h) in
    let weighed : be_value 256 (0 * 256 + 0x41) bytes ≡ 0x41 * 256 ^ 24 + be_value 256 0 bytes =
      rw size at (be_value-acc 256 (0 * 256 + 0x41) bytes) in
    let least : 0x41 * 256 ^ 24 ≤ number = omega (arith, b.holds, weighed) in
    let most : number < 0x42 * 256 ^ 24 = omega (arith, b.holds, weighed, below) in
    let places = digit_count number used tight fits (omega (arith, least)) (omega (arith, most)) in
    let first =
      first_digit written (omega (arith, count, places)) each_digit (omega (arith, holds, least))
        (omega (arith, holds, most)) in
    (
      map alphabet_at written,
      rw runs refl,
      omega (arith, length-map alphabet_at written, count, places),
      first,
    )
