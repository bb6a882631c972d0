-- ===== src/SearchCpu/Answer.antt =====
-- The loop of `search_cpu` of native/src/tron.cpp, and the whole search.
use tron_wallet_searcher.Common.{
  ℕ, zero, suc, ◌+◌, ◌-◌, ◌^◌, ◌≤◌, ◌<◌, ◌≡◌, refl, sym, ap, subst, List, true, false, ◌==◌, leb,
  ltb, some, Result, ok, arith, inl, inr, Bool-cases, ==_iff, lt→ltb, ltb→lt,
}
use tron_wallet_searcher.Pattern.{validate_pattern}
use tron_wallet_searcher.OpenSsl.{natural, Library, IsDocumented, IsPrinted}
use tron_wallet_searcher.Scalars.Offsets.{make_group-ok, make_context-ok}
use tron_wallet_searcher.Address.{public_key_bytes}
use tron_wallet_searcher.SearchCpu.{
  SearchRequest, SearchResult, next_point, search_loop, search_cpu,
}
use tron_wallet_searcher.Scalars.Numerals.{Numeral, parse_range_start-Numeral}
use tron_wallet_searcher.SearchCpu.First.{
  IsWalk, IsMiss, IsAnswer, first_hit, no_hit, check_point-cases,
}

-- The answer of the loop at some state.
abbrev Answered :
    (lib : Library) → SearchRequest → ℕ → (ℕ → lib.Point) → Result SearchResult → Type 0
Answered lib request start point r =
    (result : SearchResult) × (r ≡ ok result) × IsAnswer lib request start point result

-- One more miss.
one_more :
    (lib : Library) (request : SearchRequest) (start index : ℕ) (point : ℕ → lib.Point)
    → ((j : ℕ) → j < index → IsMiss lib request (point (start + j)))
    → IsMiss lib request (point (start + index))
    → (j : ℕ) → j < index + 1
    → IsMiss lib request (point (start + j))
one_more lib request start index point before here j lt = elim (Bool-cases (j == index)) [
  | inl same ↦
      subst (λ i. IsMiss lib request (point (start + i))) (sym ((==_iff j index).0 same)) here
  | inr other ↦ before j (ground arith)
]

-- The second half of a round that is not the last.
next_point-walks :
    (lib : Library) (request : SearchRequest) (base : lib.Point) (w : IsWalk lib base)
    (start index : ℕ)
    → index + 1 < request.range_count
    → next_point lib request w.step index (w.point (start + index))
      ≡ ok (w.point (start + (index + 1)))
unfolding next_point
next_point-walks lib request base w start index more =
    let e : start + index + 1 ≡ start + (index + 1) = omega arith in
    rw (lt→ltb (index + 1) request.range_count more, w.steps (start + index), e) refl

next_point-stays :
    (lib : Library) (request : SearchRequest) (step point : lib.Point) (index : ℕ)
    → request.range_count ≤ index + 1
    → next_point lib request step index point ≡ ok point
unfolding next_point
next_point-stays lib request step point index done =
    let last : ltb (index + 1) request.range_count ≡ false = ground arith in rw last refl

-- From `index` on, with only misses before.
search_loop-IsAnswer :
    (lib : Library) (request : SearchRequest) (n : ℕ) (base : lib.Point) (w : IsWalk lib base)
    (start : ℕ)
    → IsDocumented lib n
    → IsPrinted lib
    → request.range_count < 2 ^ 64
    → start + request.range_count ≤ n
    → (rounds index : ℕ) (point : lib.Point) → index + rounds ≡ request.range_count
    → (1 ≤ rounds → point ≡ w.point (start + index))
    → ((j : ℕ) → j < index → IsMiss lib request (w.point (start + j)))
    → Answered lib request start w.point
        (search_loop lib request (natural start) w.step rounds index point)
unfolding search_loop
search_loop-IsAnswer lib request n base w start d p word fits zero index point e here before =
    let whole : request.range_count ≡ index = omega arith in
    (_, refl, no_hit (λ j lt. before j (omega arith)))
search_loop-IsAnswer lib request n base w start d p word fits (suc rounds) index point e here
      before =
    subst
      (λ q.
        Answered lib request start w.point
          (search_loop lib request (natural start) w.step (suc rounds) index q))
      (sym (here (omega arith)))
      (elim (check_point-cases lib request n start index (w.point (start + index)) d p (omega arith)
        (omega (arith, d.fits))) [
          | inr (address, hits, hit) ↦
              (_, rw hits refl, first_hit index address (omega arith) before hit)
          | inl (misses, miss) ↦
              let before' = one_more lib request start index w.point before miss in
              elim (Bool-cases (ltb (index + 1) request.range_count)) [
                | inl more ↦
                    rw (misses, next_point-walks lib request base w start index (ltb→lt _ _ more))
                      (search_loop-IsAnswer lib request n base w start d p word fits rounds
                        (index + 1) (w.point (start + (index + 1))) (omega arith) (λ left. refl)
                        before')
                | inr last ↦
                    rw
                      (
                        misses,
                        next_point-stays lib request w.step (w.point (start + index)) index
                            (ground arith),
                      )
                      (search_loop-IsAnswer lib request n base w start d p word fits rounds
                        (index + 1) (w.point (start + index)) (omega arith)
                        (λ left. absurd (ground arith)) before')
              ]
        ])

-- A valid request whose start is written with digits, decimal or hexadecimal, and whose range lies
-- below the order, for a public key that is read as a point of the
-- curve, is answered: with the first offset of the range whose address matches, with that address and
-- with the number of points tried, or with no offset where none of the range matches.
pub search_cpu-IsAnswer :
    (lib : Library) (request : SearchRequest) (n start : ℕ) (key : List ℕ) (base : lib.Point)
    → (w : IsWalk lib base) → IsDocumented lib n
    → IsPrinted lib
    → validate_pattern request.pattern request.prefix request.suffix ≡ ok tt
    → public_key_bytes request.public_key_hex ≡ ok key
    → lib.oct2point key ≡ some base
    → lib.is_on_curve base ≡ true
    → Numeral request.range_start start
    → 1 ≤ start
    → 1 ≤ request.range_count
    → request.range_count < 2 ^ 64
    → start + request.range_count ≤ n
    → (result : SearchResult) × (search_cpu lib request ≡ ok result)
      × IsAnswer lib request start w.point result
unfolding search_cpu
search_cpu-IsAnswer lib request n start key base w d p valid reads decodes curve spelled low
      some_left word fits =
    let counted : (request.range_count == 0) ≡ false = ground arith in
    let positive : (start == 0) ≡ false = ground arith in
    let small : ltb (2 ^ 64 - 1) (request.range_count - 1) ≡ false = ground arith in
    let inside : leb n (start + (request.range_count - 1)) ≡ false = ground arith in
    let here : w.point start ≡ w.point (start + 0) = ap w.point (omega arith) in
    simp
      (
        valid,
        counted,
        reads,
        make_group-ok lib n d,
        make_context-ok lib n d,
        decodes,
        curve,
        parse_range_start-Numeral lib n start request.range_start d spelled,
        d.reads_order,
        positive,
        small,
        d.adds start (request.range_count - 1),
        inside,
        w.starts start,
        w.has_generator,
      )
      (search_loop-IsAnswer lib request n base w start d p word fits request.range_count 0
        (w.point start) (omega arith) (λ left. here) (λ j lt. absurd (omega arith)))
