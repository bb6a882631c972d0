-- ===== src/Fleet/Tests.antt =====
-- Ten offsets on three devices, on the group of order 97.
use tron_wallet_searcher.Common.{◌∷◌, ◌+◌, ◌≡◌, refl, List, [], arith}
use tron_wallet_searcher.OpenSsl.Toy.{toy, toy-IsDocumented}
use tron_wallet_searcher.OpenSsl.{all_decimal}
use tron_wallet_searcher.Scalars.Numerals.{Numeral, decimal}
use tron_wallet_searcher.SearchCpu.{SearchRequest}
use tron_wallet_searcher.Fleet.{returned, used_devices, make_shards}
use tron_wallet_searcher.Fleet.Shards.{Covers, make_shards_whole}

abbrev request : SearchRequest
request = record {
  public_key_hex = [];
  pattern = [];
  prefix = [];
  suffix = [];
  range_start = b'4' ∷ [];
  range_count = 10;
}

start-Numeral : Numeral request.range_start 4
start-Numeral = decimal (b'4' ∷ []) (omega arith, omega arith) (unfold all_decimal in refl) refl

make_shards_whole_example :
    (shards : List SearchRequest) × (make_shards toy request
        (used_devices request.range_count 3)
        (used_devices request.range_count 3)
        0
        0
      ≡ returned shards)
    × Covers 4 (4 + request.range_count) shards
make_shards_whole_example =
    make_shards_whole toy request 97 4 3 toy-IsDocumented start-Numeral (omega arith) (omega arith)
      (omega arith) (omega arith) (omega arith)
