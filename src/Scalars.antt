-- ===== src/Scalars.antt =====
-- Private keys and offsets of native/src/tron.cpp: `private_scalar`, `parse_range_start`,
-- `scalar_to_hex`, `add_private_key_offset`, `add_to_offset`.
pub mod Numerals
pub mod Offsets
mod Tests
use tron_wallet_searcher.Common.{
  ℕ, zero, suc, ◌+◌, ◌*◌, ◌-◌, ◌^◌, List, [], ◌∷◌, Bool, true, false, not, ◌==◌, ◌&&◌, ◌||◌, leb,
  ltb, if◌then◌else◌, length, drop, Option, none, some, Result, ok, err, Exception,
  invalid_argument, runtime_error, ◌>>=◌, ◌>>◌, throw_if, text,
}
use tron_wallet_searcher.Hex.{hex_to_bytes, bytes_to_hex}
use tron_wallet_searcher.OpenSsl.{Bn, is_zero, reaches, Library}

-- `if (failed) { throw e; }` for a call that gives a value.
abbrev pub value_or {ℓ} : {A : Type ℓ} → Option A → Exception → Result A
value_or none e = err e
value_or (some a) e = ok a

unfoldable pub make_group : Library → Result (Unit {0})
make_group lib =
    throw_if (not lib.group_made)
      (runtime_error (text "OpenSSL could not create the secp256k1 group."))

unfoldable pub make_context : Library → Result (Unit {0})
make_context lib =
    throw_if (not lib.context_made)
      (runtime_error (text "OpenSSL could not allocate a BIGNUM context."))

abbrev pub bad_key_size : Exception
bad_key_size = invalid_argument (text "Private key must be exactly 64 hexadecimal characters.")

abbrev pub bad_key_range : Exception
bad_key_range = invalid_argument (text "Private key is outside the secp256k1 scalar range.")

unfoldable pub private_scalar : Library → List ℕ → Result Bn
private_scalar lib private_key_hex = do
  throw_if (not (length private_key_hex == 64)) bad_key_size
  _ ← hex_to_bytes private_key_hex
  scalar ←
      value_or (lib.hex2bn private_key_hex)
        (runtime_error (text "OpenSSL could not parse the private key."))
  order ← value_or lib.order (runtime_error (text "OpenSSL could not read the secp256k1 order."))
  throw_if (is_zero scalar || scalar.negative || reaches scalar order) bad_key_range
  ok scalar

-- `value.starts_with("0x") || value.starts_with("0X")`
unfoldable pub starts_with_0x : List ℕ → Bool
starts_with_0x [] = false
starts_with_0x (c ∷ []) = false
starts_with_0x (c ∷ d ∷ rest) = (c == b'0') && ((d == b'x') || (d == b'X'))

unfoldable pub has_hex_letter : List ℕ → Bool
has_hex_letter [] = false
has_hex_letter (c ∷ rest) =
    ((leb b'a' c && leb c b'f') || (leb b'A' c && leb c b'F')) || has_hex_letter rest

abbrev pub empty_start : Exception
empty_start = invalid_argument (text "Range start cannot be empty.")

abbrev pub bad_start : Exception
bad_start = invalid_argument (text "Range start must be a decimal number or hexadecimal scalar.")

unfoldable pub parse_range_start : Library → List ℕ → Result Bn
parse_range_start lib value = do
  throw_if (length value == 0) empty_start
  value_or
      (if starts_with_0x value
        then lib.hex2bn (drop 2 value)
        else if (length value == 64) || has_hex_letter value
        then lib.hex2bn value
        else lib.dec2bn value)
      bad_start

unfoldable pub scalar_to_hex : Library → Bn → Result (List ℕ)
scalar_to_hex lib scalar = do
  bytes ←
      value_or (lib.bn2binpad scalar 32)
        (runtime_error (text "OpenSSL could not serialize the scalar."))
  ok (bytes_to_hex bytes)

abbrev pub bad_offset : Exception
bad_offset = invalid_argument (text "Offset is outside the secp256k1 scalar range.")

abbrev pub no_key : Exception
no_key = runtime_error (text "Winning offset did not produce a valid private key.")

unfoldable pub add_private_key_offset : Library → List ℕ → List ℕ → Result (List ℕ)
add_private_key_offset lib private_key_hex offset = do
  make_group lib
  make_context lib
  base ← private_scalar lib private_key_hex
  increment ← parse_range_start lib offset
  order ←
      value_or lib.order (runtime_error (text "OpenSSL could not prepare private-key recovery."))
  throw_if (is_zero increment || increment.negative || reaches increment order) bad_offset
  result ← value_or (lib.mod_add base increment order) no_key
  throw_if (is_zero result) no_key
  scalar_to_hex lib result

abbrev pub past_order : Exception
past_order = invalid_argument (text "Winning offset is outside the secp256k1 scalar range.")

-- `BN_ULONG` is a 64-bit word, which no increment exceeds.
unfoldable pub add_to_offset : Library → List ℕ → ℕ → Result (List ℕ)
add_to_offset lib offset increment = do
  make_group lib
  make_context lib
  scalar ← parse_range_start lib offset
  order ← value_or lib.order past_order
  throw_if (ltb (2 ^ 64 - 1) increment) past_order
  sum ← value_or (lib.add_word scalar increment) past_order
  throw_if (is_zero sum || sum.negative || reaches sum order) past_order
  scalar_to_hex lib sum
