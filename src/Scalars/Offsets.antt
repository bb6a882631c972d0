-- ===== src/Scalars/Offsets.antt =====
-- The sums of a private key and an offset, and of an offset and an increment, of native/src/tron.cpp.
use native.Mathlib.Nat.{mod-lt}
use tron_wallet_searcher.Common.{
  ℕ, ◌+◌, ◌%◌, ◌^◌, ◌<◌, ◌≡◌, refl, List, true, false, ◌==◌, ◌||◌, leb, ltb, if◌then◌else◌, length,
  ok, err, arith, inl, inr, Bool-cases, ◌-◌,
}
use tron_wallet_searcher.OpenSsl.{natural, is_zero, reaches, Library, IsDocumented}
use tron_wallet_searcher.OpenSsl.{hex_number}
use tron_wallet_searcher.Hex.Accepts.{all_hex, hex_to_bytes-accepts}
use tron_wallet_searcher.Scalars.Numerals.{Numeral, scalar_text, parse_range_start-Numeral}
use tron_wallet_searcher.Scalars.{
  bad_offset, make_group, make_context, private_scalar, scalar_to_hex, add_private_key_offset,
  add_to_offset, bad_key_range, no_key, past_order,
}

pub scalar_to_hex-text :
    (lib : Library) (n v : ℕ)
    → IsDocumented lib n
    → v < 2 ^ 256
    → scalar_to_hex lib (natural v) ≡ ok (scalar_text v)
unfolding scalar_to_hex
scalar_to_hex-text lib n v d fits = rw (d.pads v fits) refl

pub make_group-ok : (lib : Library) (n : ℕ) → IsDocumented lib n → make_group lib ≡ ok tt
unfolding make_group
make_group-ok lib n d = rw d.makes_group refl

pub make_context-ok : (lib : Library) (n : ℕ) → IsDocumented lib n → make_context lib ≡ ok tt
unfolding make_context
make_context-ok lib n d = rw d.makes_context refl

-- The test of a number that is not negative, as the code writes it.
outside :
    (n v : ℕ)
    → ((v == 0) || leb n v) ≡ true
    → (is_zero (natural v) || (natural v).negative || reaches (natural v) n) ≡ true
outside n v h = ground (arith, h)

inside_range :
    (n v : ℕ)
    → ((v == 0) || leb n v) ≡ false
    → (is_zero (natural v) || (natural v).negative || reaches (natural v) n) ≡ false
inside_range n v h = ground (arith, h)

-- A private key of 64 hexadecimal digits is accepted exactly from 1 to the order, without it.
pub private_scalar-hex :
    (lib : Library) (n : ℕ) (s : List ℕ)
    → IsDocumented lib n
    → length s ≡ 64
    → all_hex s ≡ true
    → private_scalar lib s ≡ (
        if (hex_number s == 0) || leb n (hex_number s)
        then err bad_key_range
        else ok (natural (hex_number s)))
unfolding private_scalar
private_scalar-hex lib n s d size h =
    let (bytes, reads, each, prints) = hex_to_bytes-accepts s (omega (arith, size)) h in
    rw (size, reads, d.reads_hex s (omega (arith, size), omega (arith, size)) h, d.reads_order)
      (ground arith)

-- For a private key of 64 hexadecimal digits and an offset that is written with digits, decimal or
-- hexadecimal: a key or an offset that is zero or not below the order is refused with its own
-- exception, and else the text of their sum modulo the order is returned, or an exception is thrown
-- where that is zero.
pub add_private_key_offset-text :
    (lib : Library) (n offset : ℕ) (key_text offset_text : List ℕ)
    → IsDocumented lib n
    → length key_text ≡ 64
    → all_hex key_text ≡ true
    → Numeral offset_text offset
    → add_private_key_offset lib key_text offset_text ≡ (
        if (hex_number key_text == 0) || leb n (hex_number key_text)
        then err bad_key_range
        else if (offset == 0) || leb n offset
        then err bad_offset
        else if (hex_number key_text + offset) % n == 0
        then err no_key
        else ok (scalar_text ((hex_number key_text + offset) % n)))
unfolding add_private_key_offset scalar_to_hex
add_private_key_offset-text lib n offset key_text offset_text d size h spelled =
    let key = hex_number key_text in
    let below : (key + offset) % n < n = mod-lt (key + offset) d.positive in
    rw (make_group-ok lib n d, make_context-ok lib n d, private_scalar-hex lib n key_text d size h)
      (elim (Bool-cases ((key == 0) || leb n key)) [
        | inl bad ↦ rw bad refl
        | inr valid ↦
            rw (valid, parse_range_start-Numeral lib n offset offset_text d spelled, d.reads_order)
              (elim (Bool-cases ((offset == 0) || leb n offset)) [
                | inl bad ↦ rw (outside n offset bad, bad) refl
                | inr inside ↦
                    rw
                      (
                        inside_range n offset inside,
                        inside,
                        d.adds_modulo key offset,
                        scalar_to_hex-text lib n ((key + offset) % n) d (omega (arith, d.fits)),
                      )
                      (ground arith)
              ])
      ])

-- An offset that is written with digits, decimal or hexadecimal, moves on by the increment while the
-- sum is not zero and stays below the order, and else an exception is thrown.
pub add_to_offset-text :
    (lib : Library) (n offset increment : ℕ) (offset_text : List ℕ)
    → IsDocumented lib n
    → Numeral offset_text offset
    → increment < 2 ^ 64
    → add_to_offset lib offset_text increment ≡ (
        if (offset + increment == 0) || leb n (offset + increment)
        then err past_order
        else ok (scalar_text (offset + increment)))
unfolding add_to_offset scalar_to_hex
add_to_offset-text lib n offset increment offset_text d spelled small =
    let word : ltb (2 ^ 64 - 1) increment ≡ false = ground arith in
    rw
      (
        make_group-ok lib n d,
        make_context-ok lib n d,
        parse_range_start-Numeral lib n offset offset_text d spelled,
        d.reads_order,
        word,
        d.adds offset increment,
      )
      (elim (Bool-cases ((offset + increment == 0) || leb n (offset + increment))) [
        | inl bad ↦ rw (outside n (offset + increment) bad, bad) refl
        | inr inside ↦
            rw (inside_range n (offset + increment) inside, inside)
              (scalar_to_hex-text lib n (offset + increment) d (ground (arith, d.fits, inside)))
      ])
