-- ===== src/Scalars/Tests.antt =====
-- Runs on the group of order 97.
use tron_wallet_searcher.Common.{
  ℕ, ◌+◌, ◌%◌, ◌≡◌, refl, List, [], ◌∷◌, true, ◌==◌, ◌||◌, leb, if◌then◌else◌, ok, err, inr,
  replicate, ◌++◌, arith,
}
use tron_wallet_searcher.Hex.Accepts.{is_hex, all_hex, hex_value}
use tron_wallet_searcher.OpenSsl.{all_decimal, hex_number}
use tron_wallet_searcher.OpenSsl.Toy.{toy, toy-IsDocumented}
use tron_wallet_searcher.Scalars.{
  add_private_key_offset, add_to_offset, no_key, past_order, bad_key_range, bad_offset,
}
use tron_wallet_searcher.Scalars.Numerals.{Numeral, decimal, prefixed, scalar_text}
use tron_wallet_searcher.Scalars.Offsets.{add_private_key_offset-text, add_to_offset-text}

ten-Numeral : Numeral (b'1' ∷ b'0' ∷ []) 10
ten-Numeral =
    decimal (b'1' ∷ b'0' ∷ []) (omega arith, omega arith) (unfold all_decimal in refl) refl

-- `0X1f`
thirty_one-Numeral : Numeral (b'0' ∷ b'X' ∷ b'1' ∷ b'f' ∷ []) 31
unfolding hex_value
thirty_one-Numeral =
    prefixed b'X' (b'1' ∷ b'f' ∷ []) (inr refl) (omega arith, omega arith)
      (unfold all_hex in unfold is_hex in refl)

abbrev key : List ℕ
key = replicate 62 b'0' ++ b'5' ∷ b'A' ∷ []

key_digits : all_hex key ≡ true
unfolding all_hex is_hex
key_digits = refl

add_private_key_offset-text_example : add_private_key_offset toy key (b'1' ∷ b'0' ∷ []) ≡ (
    if (hex_number key == 0) || leb 97 (hex_number key)
    then err bad_key_range
    else if (10 == 0) || leb 97 10
    then err bad_offset
    else if (hex_number key + 10) % 97 == 0
    then err no_key
    else ok (scalar_text ((hex_number key + 10) % 97)))
add_private_key_offset-text_example =
    add_private_key_offset-text toy 97 10 key (b'1' ∷ b'0' ∷ []) toy-IsDocumented refl key_digits
      ten-Numeral

add_to_offset-text_example :
    add_to_offset toy (b'0' ∷ b'X' ∷ b'1' ∷ b'f' ∷ []) 20
    ≡ (if (31 + 20 == 0) || leb 97 (31 + 20) then err past_order else ok (scalar_text (31 + 20)))
add_to_offset-text_example =
    add_to_offset-text toy 97 31 20 (b'0' ∷ b'X' ∷ b'1' ∷ b'f' ∷ []) toy-IsDocumented
      thirty_one-Numeral (omega arith)
