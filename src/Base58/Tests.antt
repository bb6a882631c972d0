-- ===== src/Base58/Tests.antt =====
-- Runs of the encoder, the second on the payload of a TRON address.
use tron_wallet_searcher.Common.{
  List, ℕ, [], ◌∷◌, ◌++◌, ◌≡◌, refl, ok, text, map, replicate, All, arith, length, get_or,
}
use tron_wallet_searcher.Base58.Value.{be_value}
use tron_wallet_searcher.Base58.Carry.{IsDigit}
use tron_wallet_searcher.Base58.Encode.{base58_encode-value}
use tron_wallet_searcher.Base58.Canonical.{base58_encode_tron}
use tron_wallet_searcher.Base58.Device.{device_base58_25-eq-base58_encode}
use tron_wallet_searcher.Base58.{
  base58_encode, encode_loop, add_byte, base58_text, alphabet_at, base58_alphabet, leading_zeroes,
  device_base58_25,
}

zeroes_text : base58_encode (0 ∷ 0 ∷ 1 ∷ 0 ∷ []) ≡ ok (text "115R")
unfolding base58_encode encode_loop add_byte base58_text alphabet_at base58_alphabet leading_zeroes
    text
zeroes_text = refl

abbrev payload : List ℕ
payload =
    65 ∷ 43 ∷ 90 ∷ 213 ∷ 196 ∷ 121 ∷ 92 ∷ 2 ∷ 101 ∷ 20 ∷ 248 ∷ 49 ∷ 124 ∷ 122 ∷ 33 ∷ 94 ∷ 33 ∷ 141
    ∷ 204 ∷ 214 ∷ 207 ∷ 169 ∷ 148 ∷ 105 ∷ 150 ∷ []

base58_encode-value_example :
    (digits : List ℕ) × (base58_encode payload
      ≡ ok (replicate (leading_zeroes payload) b'1' ++ map alphabet_at digits))
    × All IsDigit digits
    × (be_value 58 0 digits ≡ be_value 256 0 payload)
base58_encode-value_example = base58_encode-value payload (omega arith)

device_base58_25-eq-base58_encode_example :
    (s : List ℕ) × (base58_encode payload ≡ ok s) × (device_base58_25 payload ≡ s ++ 0 ∷ [])
device_base58_25-eq-base58_encode_example =
    device_base58_25-eq-base58_encode payload refl (omega arith)

base58_encode_tron_example :
    (address : List ℕ) × (base58_encode (0x41 ∷ replicate 24 7) ≡ ok address)
    × (length address ≡ 34)
    × (get_or address 0 0 ≡ b'T')
base58_encode_tron_example = base58_encode_tron (replicate 24 7) refl (omega arith)
