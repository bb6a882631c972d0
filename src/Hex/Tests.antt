-- ===== src/Hex/Tests.antt =====
-- Runs of the readers on a compressed public key's first bytes.
use tron_wallet_searcher.Common.{
  List, ℕ, [], ◌∷◌, ◌≡◌, ◌==◌, ◌%◌, refl, ok, err, true, false, ◌&&◌, text, map, replicate, length,
  All, if◌then◌else◌, arith,
}
use tron_wallet_searcher.Common.Words.{IsByte}
use tron_wallet_searcher.Hex.{
  hex_to_bytes, bytes_to_hex, not_hex, odd_length, host_public_key_bytes, not_a_point,
}
use tron_wallet_searcher.Hex.RoundTrip.{hex_to_bytes-bytes_to_hex}
use tron_wallet_searcher.Hex.Accepts.{
  is_hex, all_hex, lower_hex, hex_to_bytes-accepts, hex_to_bytes-rejects,
}
use tron_wallet_searcher.Hex.Host.{host_public_key_bytes-eq-hex_to_bytes}

abbrev key : List ℕ
key = 0x02 ∷ 0x79 ∷ 0xbe ∷ []

hex_to_bytes-bytes_to_hex_example : hex_to_bytes (bytes_to_hex key) ≡ ok key
hex_to_bytes-bytes_to_hex_example = hex_to_bytes-bytes_to_hex key (omega arith)

key_digits : all_hex (text "0279BE") ≡ true
unfolding all_hex is_hex text
key_digits = refl

hex_to_bytes-accepts_example :
    (bytes : List ℕ) × (hex_to_bytes (text "0279BE") ≡ ok bytes)
    × All IsByte bytes
    × (bytes_to_hex bytes ≡ map lower_hex (text "0279BE"))
unfolding text
hex_to_bytes-accepts_example = hex_to_bytes-accepts (text "0279BE") refl key_digits

bad_digits : (length (text "027x") % 2 == 0 && all_hex (text "027x")) ≡ false
unfolding all_hex is_hex text
bad_digits = refl

hex_to_bytes-rejects_example :
    hex_to_bytes (text "027x") ≡ err (if length (text "027x") % 2 == 0 then not_hex else odd_length)
hex_to_bytes-rejects_example = hex_to_bytes-rejects (text "027x") bad_digits

host_public_key_bytes-eq-hex_to_bytes_example : host_public_key_bytes (replicate 128 b'7') ≡ (
    if length {A = ℕ} (replicate 128 b'7') == 128
    then hex_to_bytes (replicate 128 b'7')
    else err not_a_point)
host_public_key_bytes-eq-hex_to_bytes_example =
    host_public_key_bytes-eq-hex_to_bytes (replicate 128 b'7')
