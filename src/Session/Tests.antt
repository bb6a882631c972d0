-- ===== src/Session/Tests.antt =====
-- A session on the group of order 97.
use mathlib.Core.Bool.{false≢true}
use tron_wallet_searcher.Common.{[], false, ok, none, replicate, text}
use tron_wallet_searcher.Hex.{bytes_to_hex}
use tron_wallet_searcher.OpenSsl.Toy.{toy}
use tron_wallet_searcher.Scalars.Numerals.{scalar_text}
use tron_wallet_searcher.SearchCpu.{SearchRequest}
use tron_wallet_searcher.Chain.Curve.{zero_point}
use tron_wallet_searcher.Session.{chained8, Cuda, Impl}
use tron_wallet_searcher.Session.Search.{search}
use tron_wallet_searcher.Session.Tracked.{IsTracked, search-IsTracked}

abbrev device : Cuda
device = record { check = λ name. ok tt; multiprocessors = 1; active_blocks = λ mode threads. 1 }

abbrev chained_request : SearchRequest
chained_request = record {
  public_key_hex = bytes_to_hex (replicate 33 2);
  pattern = text "2x2";
  prefix = text "Dv";
  suffix = text "9K";
  range_start = scalar_text 3;
  range_count = 8;
}

abbrev session : Impl
session = record {
  mode = chained8;
  launch = record { threads = 1; resident_blocks = 1; points = 8; chains = 8 };
  batch_table = [];
  chain_points = replicate 8 zero_point;
  chain_stride_point = zero_point;
  chain_state_valid = false;
  chain_public_key = [];
  chain_next_start = [];
  cached_stride = none;
}

fresh-IsTracked : IsTracked toy session
fresh-IsTracked valid = absurd (false≢true valid)

abbrev behind : Impl
behind = (search toy device chained_request session).1

abbrev next_request : SearchRequest
next_request = record chained_request { range_start = scalar_text 11 }

search-IsTracked_example : IsTracked toy (search toy device next_request behind).1
search-IsTracked_example =
    search-IsTracked toy device next_request behind
      (search-IsTracked toy device chained_request session fresh-IsTracked)
