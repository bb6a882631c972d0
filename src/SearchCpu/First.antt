-- ===== src/SearchCpu/First.antt =====
-- A specification of the answer of `search_cpu` of native/src/tron.cpp, and one round of its loop.
use tron_wallet_searcher.Common.{
  ℕ, ◌+◌, ◌-◌, ◌^◌, ◌<◌, ◌≡◌, refl, List, [], true, false, ltb, none, some, ok, arith, ◌⊎◌, inl,
  inr, Bool-cases,
}
use tron_wallet_searcher.Pattern.{matches_pattern}
use tron_wallet_searcher.OpenSsl.{natural, Library, IsDocumented, IsPrinted}
use tron_wallet_searcher.Scalars.{scalar_to_hex}
use tron_wallet_searcher.Scalars.Numerals.{scalar_text}
use tron_wallet_searcher.Address.{point_to_address}
use tron_wallet_searcher.Address.Payload.{finite_address}
use tron_wallet_searcher.SearchCpu.{SearchRequest, SearchResult, winning_result, check_point}

-- What the documentation says of the points: `point v` is v times the generator plus the base point.
pub record IsWalk (lib : Library) (base : lib.Point) : Type 0 where
  pub point : ℕ → lib.Point
  pub step : lib.Point
  pub has_generator : lib.generator ≡ some step
  pub starts : (v : ℕ) → lib.mul_add (natural v) base ≡ some (point v)
  pub steps : (v : ℕ) → lib.add (point v) step ≡ some (point (v + 1))

-- A finite point with a matching address.
pub record IsHit (lib : Library) (request : SearchRequest) (point : lib.Point) (address : List ℕ)
    : Type 0 where
  pub finite : lib.is_at_infinity point ≡ false
  pub encodes : point_to_address lib point ≡ ok address
  pub matches : matches_pattern address request.prefix request.suffix ≡ true

-- A point that is infinite or has another address.
abbrev pub IsMiss : (lib : Library) → SearchRequest → lib.Point → Type 0
IsMiss lib request point =
    (lib.is_at_infinity point ≡ true)
    ⊎ ((address : List ℕ) × (point_to_address lib point ≡ ok address)
        × (matches_pattern address request.prefix request.suffix ≡ false))

-- The specification of the answer: the first hit among the points of the range, or none.
pub data IsAnswer (lib : Library) (request : SearchRequest) (start : ℕ) (point : ℕ → lib.Point)
    : SearchResult → Type 0 where
  first_hit :
      (k : ℕ) (address : List ℕ)
      → k < request.range_count
      → ((j : ℕ) → j < k → IsMiss lib request (point (start + j)))
      → IsHit lib request (point (start + k)) address
      → IsAnswer lib request start point (record {
        found = true;
        address = address;
        offset_hex = scalar_text (start + k);
        attempts = k + 1;
      })
  no_hit :
      ((j : ℕ) → j < request.range_count → IsMiss lib request (point (start + j)))
      → IsAnswer lib request start point
          (record { found = false; address = []; offset_hex = []; attempts = request.range_count })

-- The offset of a hit is printed.
winning_result-text :
    (lib : Library) (n start index : ℕ) (address : List ℕ)
    → IsDocumented lib n
    → index < 2 ^ 64
    → start + index < 2 ^ 256
    → winning_result lib (natural start) index address
      ≡ ok (record {
        found = true;
        address = address;
        offset_hex = scalar_text (start + index);
        attempts = index + 1;
      })
unfolding winning_result scalar_to_hex
winning_result-text lib n start index address d word fits =
    let small : ltb (2 ^ 64 - 1) index ≡ false = ground arith in
    rw (small, d.adds start index, d.pads (start + index) fits) refl

-- A round either finds the hit at its point or sees a miss.
pub check_point-cases :
    (lib : Library) (request : SearchRequest) (n start index : ℕ) (point : lib.Point)
    → IsDocumented lib n
    → IsPrinted lib
    → index < 2 ^ 64
    → start + index < 2 ^ 256
    → ((check_point lib request (natural start) index point ≡ ok none) × IsMiss lib request point)
      ⊎ ((address : List ℕ) × (check_point lib request (natural start) index point
            ≡ ok (
                some (record {
                  found = true;
                  address = address;
                  offset_hex = scalar_text (start + index);
                  attempts = index + 1;
                })))
          × IsHit lib request point address)
unfolding check_point
check_point-cases lib request n start index point d p word fits =
    elim (Bool-cases (lib.is_at_infinity point)) [
      | inl infinite ↦ inl (rw infinite refl, inl infinite)
      | inr finite ↦
          let (address, encodes, decodes) = finite_address lib point p finite in
          elim (Bool-cases (matches_pattern address request.prefix request.suffix)) [
            | inl matches ↦ inr (
              address,
              rw
                  (
                    finite,
                    encodes,
                    matches,
                    winning_result-text lib n start index address d word fits,
                  )
                  refl,
              record { finite = finite; encodes = encodes; matches = matches },
            )
            | inr other ↦ inl (rw (finite, encodes, other) refl, inr (address, encodes, other))
          ]
    ]
