-- ===== src/Address.antt =====
-- Public keys and addresses: `point_to_address`, `derive_tron_address`, `compressed_public_key`,
-- `uncompressed_public_key` and `derive_offset_public_key` of native/src/tron.cpp.
pub mod Payload
mod Tests
use tron_wallet_searcher.Common.{
  ℕ, ◌-◌, ◌+◌, List, [], ◌∷◌, ◌++◌, Bool, true, false, not, ◌==◌, ◌&&◌, ◌||◌, length, take, drop,
  Option, none, some, Result, ok, err, Exception, invalid_argument, runtime_error, ◌>>=◌, ◌>>◌,
  throw_if, text,
}
use tron_wallet_searcher.Hex.{hex_to_bytes, bytes_to_hex}
use tron_wallet_searcher.Keccak.{keccak_256}
use tron_wallet_searcher.Base58.{base58_encode}
use tron_wallet_searcher.OpenSsl.{Bn, natural, is_zero, reaches, Library}
use tron_wallet_searcher.Scalars.{
  value_or, make_group, make_context, private_scalar, parse_range_start, bad_offset,
}

-- The 21 bytes of the version and of the end of the digest of the key, and a checksum of 4 bytes.
unfoldable pub address_payload : Library → List ℕ → List ℕ
address_payload lib public_key =
    let digest = keccak_256 (drop 1 public_key) in
    let payload = 0x41 ∷ take 20 (drop (length digest - 20) digest) in
    payload ++ take 4 (lib.sha256 (lib.sha256 payload))

abbrev pub not_serialized : Exception
not_serialized = runtime_error (text "OpenSSL could not serialize an uncompressed public key.")

unfoldable pub point_to_address : (lib : Library) → lib.Point → Result (List ℕ)
point_to_address lib point = do
  throw_if (not (length (lib.uncompressed point) == 65)) not_serialized
  base58_encode (address_payload lib (lib.uncompressed point))

abbrev pub no_point : Exception
no_point = runtime_error (text "OpenSSL could not derive the public point.")

unfoldable pub derive_tron_address : Library → List ℕ → Result (List ℕ)
derive_tron_address lib private_key_hex = do
  make_group lib
  make_context lib
  scalar ← private_scalar lib private_key_hex
  point ← value_or (lib.mul_generator scalar) no_point
  point_to_address lib point

unfoldable pub compressed_public_key : Library → List ℕ → Result (List ℕ)
compressed_public_key lib private_key_hex = do
  make_group lib
  make_context lib
  scalar ← private_scalar lib private_key_hex
  point ← value_or (lib.mul_generator scalar) no_point
  throw_if (not (length (lib.compressed point) == 33))
      (runtime_error (text "OpenSSL could not serialize a compressed public key."))
  ok (bytes_to_hex (lib.compressed point))

abbrev pub bad_key_length : Exception
bad_key_length =
    invalid_argument (text "Public key must be compressed (33 bytes) or uncompressed (65 bytes).")

abbrev pub not_finite : Exception
not_finite = invalid_argument (text "Public key is not a finite secp256k1 point.")

abbrev pub not_valid : Exception
not_valid = invalid_argument (text "Public key is not a valid secp256k1 point.")

-- The bytes of a public key of either form.
unfoldable pub public_key_bytes : List ℕ → Result (List ℕ)
public_key_bytes public_key_hex = do
  public_key ← hex_to_bytes public_key_hex
  throw_if (not (length public_key == 33) && not (length public_key == 65)) bad_key_length
  ok public_key

-- The point's two coordinates, without the first byte.
unfoldable pub print_point : (lib : Library) → lib.Point → List ℕ → Result (List ℕ)
print_point lib point message = do
  throw_if (not (length (lib.uncompressed point) == 65)) (runtime_error message)
  ok (bytes_to_hex (drop 1 (lib.uncompressed point)))

unfoldable pub uncompressed_public_key : Library → List ℕ → Result (List ℕ)
uncompressed_public_key lib public_key_hex = do
  public_key ← public_key_bytes public_key_hex
  make_group lib
  make_context lib
  point ← value_or (lib.oct2point public_key) not_finite
  throw_if (not (lib.is_on_curve point) || lib.is_at_infinity point) not_finite
  print_point lib point (text "OpenSSL could not serialize the public point.")

abbrev pub no_offset_point : Exception
no_offset_point = runtime_error (text "OpenSSL could not derive a finite offset public point.")

unfoldable pub derive_offset_public_key : Library → List ℕ → List ℕ → Result (List ℕ)
derive_offset_public_key lib public_key_hex offset = do
  public_key ← public_key_bytes public_key_hex
  make_group lib
  make_context lib
  scalar ← parse_range_start lib offset
  order ← value_or lib.order not_valid
  base_point ← value_or (lib.oct2point public_key) not_valid
  throw_if (not (lib.is_on_curve base_point)) not_valid
  throw_if (is_zero scalar || scalar.negative || reaches scalar order) bad_offset
  result_point ← value_or (lib.mul_add scalar base_point) no_offset_point
  throw_if (lib.is_at_infinity result_point) no_offset_point
  print_point lib result_point (text "OpenSSL could not serialize the offset public point.")
