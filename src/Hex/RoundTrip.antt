-- ===== src/Hex/RoundTrip.antt =====
-- `bytes_to_hex` and `hex_to_bytes` of native/src/tron.cpp, one after the other.
use tron_wallet_searcher.Common.{
  ℕ, ◌+◌, ◌*◌, ◌/◌, ◌%◌, ◌^◌, ◌<◌, ◌≡◌, refl, List, [], ◌∷◌, bit_or, length, All, ok, arith,
}
use tron_wallet_searcher.Common.Words.{u8, IsByte, shifted-bit_or}
use tron_wallet_searcher.Hex.{nibble, hex_pairs, hex_to_bytes, hex_digit, bytes_to_hex}

pub nibble-hex_digit : (d : ℕ) → d < 16 → nibble (hex_digit d) ≡ ok d
unfolding nibble hex_digit
nibble-hex_digit d h = ground arith

-- Two digits make their byte.
pub join_nibbles : (h l : ℕ) → h < 16 → l < 16 → u8 (bit_or (h * 2 ^ 4) l) ≡ h * 16 + l
join_nibbles h l p q = omega (arith, shifted-bit_or 4 h l q)

pub length-bytes_to_hex : (bytes : List ℕ) → length (bytes_to_hex bytes) ≡ 2 * length bytes
unfolding bytes_to_hex
length-bytes_to_hex [] = refl
length-bytes_to_hex (b ∷ bytes) = omega (arith, length-bytes_to_hex bytes)

hex_pairs-bytes_to_hex :
    (bytes : List ℕ) → All IsByte bytes → hex_pairs (bytes_to_hex bytes) ≡ ok bytes
unfolding hex_pairs bytes_to_hex
hex_pairs-bytes_to_hex [] h = refl
hex_pairs-bytes_to_hex (b ∷ bytes) h =
    let high : b / 16 < 16 = omega (arith, h.0) in
    let whole : b / 16 * 16 + b % 16 ≡ b = omega arith in
    rw (
      nibble-hex_digit (b / 16) high,
      nibble-hex_digit (b % 16) (omega arith),
      hex_pairs-bytes_to_hex bytes h.1,
      join_nibbles (b / 16) (b % 16) high (omega arith),
      whole,
    )

-- Every list of bytes is read back from its print.
pub hex_to_bytes-bytes_to_hex :
    (bytes : List ℕ) → All IsByte bytes → hex_to_bytes (bytes_to_hex bytes) ≡ ok bytes
unfolding hex_to_bytes
hex_to_bytes-bytes_to_hex bytes h =
    ground (arith, length-bytes_to_hex bytes, hex_pairs-bytes_to_hex bytes h)
