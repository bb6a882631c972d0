-- ===== src/Hex.antt =====
-- Hexadecimal text: `hex_to_bytes` and `bytes_to_hex` of native/src/tron.cpp, and the reader of
-- public keys in native/src/cuda_runtime.cu (`host_hex_nibble`, `host_public_key_bytes`).
pub mod RoundTrip
pub mod Accepts
pub mod Host
mod Tests
use tron_wallet_searcher.Common.{
  ℕ, zero, suc, get_or, set, replicate, ◌+◌, ◌-◌, ◌*◌, ◌/◌, ◌%◌, ◌^◌, List, [], ◌∷◌, ◌&&◌, not,
  bit_or, ◌==◌, leb, ltb, if◌then◌else◌, length, Result, ok, err, Exception, invalid_argument,
  runtime_error, ◌>>=◌, ◌>>◌, throw_if, text,
}
use tron_wallet_searcher.Common.Words.{u8}

abbrev pub odd_length : Exception
odd_length = invalid_argument (text "Hexadecimal input must contain an even number of characters.")

abbrev pub not_hex : Exception
not_hex = invalid_argument (text "Input contains a non-hexadecimal character.")

-- `character - '0'`, or the digit of a letter of either case.
unfoldable pub nibble : ℕ → Result ℕ
nibble character =
    if leb b'0' character && leb character b'9'
    then ok (character - b'0')
    else if leb b'a' character && leb character b'f'
    then ok (character - b'a' + 10)
    else if leb b'A' character && leb character b'F'
    then ok (character - b'A' + 10)
    else err not_hex

-- The loop over the pairs of characters. An odd last character is not read.
unfoldable pub hex_pairs : List ℕ → Result (List ℕ)
hex_pairs [] = ok []
hex_pairs (c ∷ []) = ok []
hex_pairs (high ∷ low ∷ rest) = do
  h ← nibble high
  l ← nibble low
  bytes ← hex_pairs rest
  ok (u8 (bit_or (h * 2 ^ 4) l) ∷ bytes)

unfoldable pub hex_to_bytes : List ℕ → Result (List ℕ)
hex_to_bytes value = do throw_if (not (length value % 2 == 0)) odd_length; hex_pairs value

-- `std::hex`, `std::setfill('0')` and `std::setw(2)` of a byte: two lower-case digits.
unfoldable pub hex_digit : ℕ → ℕ
hex_digit d = if ltb d 10 then b'0' + d else b'a' + (d - 10)

unfoldable pub bytes_to_hex : List ℕ → List ℕ
bytes_to_hex [] = []
bytes_to_hex (b ∷ bytes) = hex_digit (b / 16) ∷ hex_digit (b % 16) ∷ bytes_to_hex bytes

abbrev pub not_a_point : Exception
not_a_point = runtime_error (text "Expected a 64-byte uncompressed public point.")

-- The host code of the CUDA part has a reader of its own.
unfoldable pub host_hex_nibble : ℕ → Result ℕ
host_hex_nibble value =
    if leb b'0' value && leb value b'9'
    then ok (value - b'0')
    else if leb b'a' value && leb value b'f'
    then ok (value - b'a' + 10)
    else if leb b'A' value && leb value b'F'
    then ok (value - b'A' + 10)
    else err not_hex

-- The loop over the bytes of the output, from `index` on.
unfoldable pub host_public_key_loop : ℕ → ℕ → List ℕ → List ℕ → Result (List ℕ)
host_public_key_loop zero index value output = ok output
host_public_key_loop (suc rounds) index value output = do
  high ← host_hex_nibble (get_or value (index * 2) 0)
  low ← host_hex_nibble (get_or value (index * 2 + 1) 0)
  host_public_key_loop rounds (index + 1) value (set output index (u8 (bit_or (high * 2 ^ 4) low)))

unfoldable pub host_public_key_bytes : List ℕ → Result (List ℕ)
host_public_key_bytes value = do
  throw_if (not (length value == 128)) not_a_point
  host_public_key_loop 64 0 value (replicate 64 0)
