-- ===== src/SearchCpu/Tests.antt =====
-- A run of the search on the group of order 97.
use tron_wallet_searcher.Common.{
  ℕ, ◌∷◌, [], ◌+◌, ◌%◌, ◌≡◌, refl, ap, List, replicate, ok, some, text, text_eq, arith,
}
use tron_wallet_searcher.Hex.{bytes_to_hex}
use tron_wallet_searcher.Hex.RoundTrip.{hex_to_bytes-bytes_to_hex}
use tron_wallet_searcher.Base58.{base58_alphabet}
use tron_wallet_searcher.Base58.Value.{be_value}
use tron_wallet_searcher.Pattern.{
  validate_pattern, check_lengths, check_characters, pattern_lengths, contains,
  allowed_first_custom,
}
use tron_wallet_searcher.OpenSsl.Toy.{toy, toy-IsDocumented, toy-IsPrinted}
use tron_wallet_searcher.Address.{public_key_bytes}
use tron_wallet_searcher.OpenSsl.{all_decimal}
use tron_wallet_searcher.Scalars.Numerals.{Numeral, decimal}
use tron_wallet_searcher.SearchCpu.{SearchRequest, SearchResult, search_cpu}
use tron_wallet_searcher.SearchCpu.First.{IsWalk, IsAnswer}
use tron_wallet_searcher.SearchCpu.Answer.{search_cpu-IsAnswer}

abbrev key : List ℕ
key = replicate 33 2

abbrev base : ℕ
base = be_value 256 0 key % 97

abbrev request : SearchRequest
request = record {
  public_key_hex = bytes_to_hex key;
  pattern = text "2x2";
  prefix = text "Dv";
  suffix = text "9K";
  range_start = b'3' ∷ [];
  range_count = 4;
}

toy_steps : (v : ℕ) → toy.add ((v + base) % 97) 1 ≡ some ((v + 1 + base) % 97)
toy_steps v = ap some (omega arith)

toy-IsWalk : IsWalk toy base
toy-IsWalk = record {
  point = λ v. (v + base) % 97;
  step = 1;
  has_generator = refl;
  starts = λ v. refl;
  steps = toy_steps;
}

request_valid : validate_pattern request.pattern request.prefix request.suffix ≡ ok tt
unfolding validate_pattern check_lengths check_characters pattern_lengths contains
    allowed_first_custom text text_eq base58_alphabet
request_valid = refl

key_read : public_key_bytes request.public_key_hex ≡ ok key
unfolding public_key_bytes
key_read = rw (hex_to_bytes-bytes_to_hex key (omega arith)) refl

start-Numeral : Numeral request.range_start 3
start-Numeral = decimal (b'3' ∷ []) (omega arith, omega arith) (unfold all_decimal in refl) refl

search_cpu-IsAnswer_example :
    (result : SearchResult) × (search_cpu toy request ≡ ok result)
    × IsAnswer toy request 3 toy-IsWalk.point result
search_cpu-IsAnswer_example =
    search_cpu-IsAnswer toy request 97 3 key base toy-IsWalk toy-IsDocumented toy-IsPrinted
      request_valid key_read refl refl start-Numeral (omega arith) (omega arith) (omega arith)
      (omega arith)
