-- ===== src/SearchCpu.antt =====
-- The search on the CPU: `SearchRequest`, `SearchResult` and `search_cpu` of native/src/tron.cpp and
-- native/include/tronforge/tron.hpp. `elapsed_seconds` is left out: the clock is outside the model.
pub mod First
pub mod Answer
mod Tests
use tron_wallet_searcher.Common.{
  ℕ, zero, suc, ◌+◌, ◌-◌, ◌^◌, List, [], Bool, true, false, not, ◌==◌, ◌||◌, leb, ltb,
  if◌then◌else◌, Option, none, some, Result, ok, err, Exception, invalid_argument, runtime_error,
  ◌>>=◌, ◌>>◌, throw_if, text,
}
use tron_wallet_searcher.Pattern.{matches_pattern, validate_pattern}
use tron_wallet_searcher.OpenSsl.{Bn, is_zero, reaches, Library}
use tron_wallet_searcher.Scalars.{
  value_or, make_group, make_context, parse_range_start, scalar_to_hex,
}
use tron_wallet_searcher.Address.{point_to_address, public_key_bytes, not_valid}

pub record SearchRequest : Type 0 where
  pub public_key_hex : List ℕ
  pub pattern : List ℕ
  pub prefix : List ℕ
  pub suffix : List ℕ
  pub range_start : List ℕ
  pub range_count : ℕ

pub record SearchResult : Type 0 where
  pub found : Bool
  pub address : List ℕ
  pub offset_hex : List ℕ
  pub attempts : ℕ

abbrev pub empty_range : Exception
empty_range = invalid_argument (text "Range count must be at least 1.")

abbrev pub no_range : Exception
no_range = runtime_error (text "OpenSSL could not prepare the search range.")

abbrev pub low_start : Exception
low_start = invalid_argument (text "Range start must be at least 1.")

abbrev pub crosses_order : Exception
crosses_order = invalid_argument (text "Search range crosses the secp256k1 scalar order.")

abbrev pub no_offset : Exception
no_offset = runtime_error (text "OpenSSL could not serialize the winning offset.")

-- The result for a matching address at `index`.
unfoldable pub winning_result : Library → Bn → ℕ → List ℕ → Result SearchResult
winning_result lib start index address = do
  throw_if (ltb (2 ^ 64 - 1) index) no_offset
  offset ← value_or (lib.add_word start index) no_offset
  offset_hex ← scalar_to_hex lib offset
  ok (record { found = true; address = address; offset_hex = offset_hex; attempts = index + 1 })

-- The first half of a round: the result, if the point has a matching address.
unfoldable pub check_point :
    (lib : Library) → SearchRequest → Bn → ℕ → lib.Point → Result (Option SearchResult)
check_point lib request start index point =
    if lib.is_at_infinity point
    then ok none
    else (point_to_address lib point >>= λ address.
        if matches_pattern address request.prefix request.suffix
        then (winning_result lib start index address >>= λ result. ok (some result))
        else ok none)

-- The second half: the next point, unless this was the last round.
unfoldable pub next_point :
    (lib : Library) → SearchRequest → lib.Point → ℕ → lib.Point → Result lib.Point
next_point lib request generator index point =
    if ltb (index + 1) request.range_count
    then value_or (lib.add point generator)
        (runtime_error (text "OpenSSL failed while advancing the search point."))
    else ok point

-- The loop from `index` on, with the number of rounds left.
unfoldable pub search_loop :
    (lib : Library) → SearchRequest → Bn → lib.Point → ℕ → ℕ → lib.Point → Result SearchResult
search_loop lib request start generator zero index point =
    ok (record { found = false; address = []; offset_hex = []; attempts = request.range_count })
search_loop lib request start generator (suc rounds) index point = do
  hit ← check_point lib request start index point
  elim hit [
    | some result ↦ ok result
    | none ↦ next_point lib request generator index point >>= λ next.
        search_loop lib request start generator rounds (index + 1) next
  ]

unfoldable pub search_cpu : Library → SearchRequest → Result SearchResult
search_cpu lib request = do
  validate_pattern request.pattern request.prefix request.suffix
  throw_if (request.range_count == 0) empty_range
  public_key ← public_key_bytes request.public_key_hex
  make_group lib
  make_context lib
  base_point ← value_or (lib.oct2point public_key) not_valid
  throw_if (not (lib.is_on_curve base_point)) not_valid
  start ← parse_range_start lib request.range_start
  order ← value_or lib.order no_range
  throw_if (is_zero start || start.negative) low_start
  throw_if (ltb (2 ^ 64 - 1) (request.range_count - 1)) crosses_order
  last ← value_or (lib.add_word start (request.range_count - 1)) crosses_order
  throw_if (reaches last order) crosses_order
  current_point ←
      value_or (lib.mul_add start base_point)
        (runtime_error (text "OpenSSL could not initialize the search point."))
  generator ←
      value_or lib.generator
        (runtime_error (text "OpenSSL could not read the secp256k1 generator."))
  search_loop lib request start generator request.range_count 0 current_point
