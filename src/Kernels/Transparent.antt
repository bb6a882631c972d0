-- ===== src/Kernels/Transparent.antt =====
-- The evaluation of a candidate, with the prefilter, against the host's matcher:
-- native/src/cuda_runtime.cu and native/src/tron.cpp.
use tron_wallet_searcher.Common.{
  ℕ, zero, suc, ◌+◌, ◌-◌, ◌*◌, ◌/◌, ◌^◌, ◌≡◌, refl, ap, ◌∙◌, sym, subst, List, [], ◌∷◌, ◌++◌, All,
  length, length-append, take, Bool, true, false, not, arith, ok, ok-injective, get_or,
  if◌then◌else◌,
}
use tron_wallet_searcher.Common.Words.{u8, IsByte}
use tron_wallet_searcher.Base58.{base58_encode}
use tron_wallet_searcher.Pattern.{
  matches_pattern, validate_pattern, device_pattern_matches, device_prefix_matches,
  device_suffix_matches,
}
use tron_wallet_searcher.Pattern.Matches.{device_pattern_matches-eq-matches_pattern}
use tron_wallet_searcher.Pattern.Valid.{IsPattern-bounds}
use tron_wallet_searcher.PrefixFilter.{
  populate_prefix_intervals, device_payload_may_match_prefix, payload_size,
}
use tron_wallet_searcher.PrefixFilter.Sound.{prefilter_sound}
use tron_wallet_searcher.Chain.Curve.{Point, field_to_big_endian, word_to_big_endian}
use tron_wallet_searcher.Chain.Curve as Wide
use tron_wallet_searcher.Secp.Curve.{AffinePoint}
use tron_wallet_searcher.Secp.Curve as Legacy
use tron_wallet_searcher.Kernels.{
  device_tron_payload_from_public_key, device_tron_address_from_public_key, evaluate_public_key,
  evaluate_search_candidate, evaluate_chain_candidate,
}
use tron_wallet_searcher.Kernels.Candidate.{
  device_checked_payload, checked-IsBytes, device_address-eq, payload_size_lem,
}

-- A NUL behind a text reads like what is beyond its end.
get_or-nul : (s : List ℕ) (i : ℕ) → get_or (s ++ 0 ∷ []) i 0 ≡ get_or s i 0
get_or-nul [] zero = refl
get_or-nul [] (suc i) = refl
get_or-nul (x ∷ s) zero = refl
get_or-nul (x ∷ s) (suc i) = get_or-nul s i

device_prefix_matches-nul :
    (s : List ℕ) (index : ℕ) (cs : List ℕ)
    → device_prefix_matches (s ++ 0 ∷ []) index cs ≡ device_prefix_matches s index cs
unfolding device_prefix_matches
device_prefix_matches-nul s index [] = refl
device_prefix_matches-nul s index (c ∷ cs) =
    rw (get_or-nul s (index + 1), device_prefix_matches-nul s (index + 1) cs) refl

device_suffix_matches-nul :
    (s : List ℕ) (position : ℕ) (cs : List ℕ)
    → device_suffix_matches (s ++ 0 ∷ []) position cs ≡ device_suffix_matches s position cs
unfolding device_suffix_matches
device_suffix_matches-nul s position [] = refl
device_suffix_matches-nul s position (c ∷ cs) =
    rw (get_or-nul s position, device_suffix_matches-nul s (position + 1) cs) refl

device_pattern_matches-nul :
    (s prefix suffix : List ℕ)
    → device_pattern_matches (s ++ 0 ∷ []) prefix suffix ≡ device_pattern_matches s prefix suffix
unfolding device_pattern_matches
device_pattern_matches-nul s prefix suffix =
    rw
      (
        device_prefix_matches-nul s 0 prefix,
        device_suffix_matches-nul s (34 - length suffix) suffix,
      )
      refl

-- What a key gives, by the host's matcher.
abbrev pub outcome : List ℕ → List ℕ → List ℕ → ℕ → List ℕ
outcome address prefix suffix index =
    if matches_pattern address prefix suffix then index ∷ [] else []

-- What the prefilter and the matcher give together.
abbrev filtered : Bool → Bool → ℕ → List ℕ
filtered may matches index = if not may then [] else (if matches then index ∷ [] else [])

filtered_lem :
    (may matches : Bool) (index : ℕ)
    → (matches ≡ true → may ≡ true)
    → filtered may matches index ≡ (if matches then index ∷ [] else [])
filtered_lem true matches index sound = refl
filtered_lem false false index sound = refl
filtered_lem false true index sound = ground (arith, sound refl)

evaluate_public_key-eq :
    (pattern prefix suffix public_key : List ℕ) (rows : List (List ℕ × List ℕ)) (index : ℕ)
    → validate_pattern pattern prefix suffix ≡ ok tt
    → populate_prefix_intervals prefix ≡ ok rows
    → length public_key ≡ 64
    → (s : List ℕ) × (base58_encode (device_checked_payload public_key) ≡ ok s)
      × (evaluate_public_key public_key index
            (record { prefix = prefix; suffix = suffix; rows = rows })
          ≡ outcome s prefix suffix index)
unfolding evaluate_public_key device_tron_address_from_public_key
evaluate_public_key-eq pattern prefix suffix public_key rows index valid filled size =
    let payload = device_tron_payload_from_public_key public_key in
    let (s, encodes, device, sized, first) = device_address-eq public_key size in
    let (rest, whole, r) = checked-IsBytes public_key size in
    let (least, most, least', most') = IsPattern-bounds pattern prefix suffix valid in
    let same =
      ap (λ a. device_pattern_matches a prefix suffix) device
      ∙ device_pattern_matches-nul s prefix suffix
      ∙ device_pattern_matches-eq-matches_pattern s prefix suffix sized first
          (omega (arith, most')) in
    let bytes : length (device_checked_payload public_key) ≡ 25 =
      ap length whole ∙ omega (arith, r.size) in
    let version : IsByte 0x41 = omega arith in
    let each = subst (All IsByte) (sym whole) (version, r.each) in
    let sound : matches_pattern s prefix suffix ≡ true
        → device_payload_may_match_prefix payload rows ≡ true =
      λ accepted.
        let (table, fills, passes) =
          prefilter_sound pattern prefix suffix (device_checked_payload public_key) s valid bytes
            each encodes accepted in
        let one : table ≡ rows = ok-injective (sym fills ∙ filled) in
        let cut = payload_size_lem public_key size in
        subst (λ t. device_payload_may_match_prefix t rows ≡ true) cut
          (subst
            (λ t.
              device_payload_may_match_prefix
                (take payload_size (device_checked_payload public_key)) t
              ≡ true)
            one passes) in
    (
      s,
      encodes,
      ap (λ m. filtered (device_payload_may_match_prefix payload rows) m index) same
          ∙ filtered_lem (device_payload_may_match_prefix payload rows)
              (matches_pattern s prefix suffix) index sound,
    )

wide_size : (limbs : List ℕ) → length (Wide.field_to_big_endian limbs) ≡ 8 * length limbs
unfolding field_to_big_endian word_to_big_endian
wide_size [] = refl
wide_size (limb ∷ limbs) = omega (
  arith,
  length-append (Wide.field_to_big_endian limbs) (word_to_big_endian limb),
  wide_size limbs,
)

legacy_size : (limbs : List ℕ) → length (Legacy.field_to_big_endian limbs) ≡ 4 * length limbs
unfolding Legacy.field_to_big_endian
legacy_size [] = refl
legacy_size (limb ∷ limbs) = omega (
  arith,
  length-append (Legacy.field_to_big_endian limbs)
      (u8 (limb / 2 ^ 24) ∷ u8 (limb / 2 ^ 16) ∷ u8 (limb / 2 ^ 8) ∷ u8 limb ∷ []),
  legacy_size limbs,
)

wide_key_size :
    (c : Point) → length c.x ≡ 4 → length c.y ≡ 4 → length (Wide.point_to_public_key c) ≡ 64
unfolding Wide.point_to_public_key
wide_key_size c four also = omega (
  arith,
  length-append (Wide.field_to_big_endian c.x) (Wide.field_to_big_endian c.y),
  wide_size c.x,
  wide_size c.y,
)

legacy_key_size :
    (c : AffinePoint) → length c.x ≡ 8 → length c.y ≡ 8 → length (Legacy.point_to_public_key c) ≡ 64
unfolding Legacy.point_to_public_key
legacy_key_size c eight also = omega (
  arith,
  length-append (Legacy.field_to_big_endian c.x) (Legacy.field_to_big_endian c.y),
  legacy_size c.x,
  legacy_size c.y,
)

-- What a candidate gives: nothing at infinity, and else the outcome for the address of its key.
abbrev pub Gives : Bool → List ℕ → List ℕ → List ℕ → ℕ → List ℕ → Type 0
Gives infinity public_key prefix suffix index found =
    (s : List ℕ) × (base58_encode (device_checked_payload public_key) ≡ ok s)
    × (found ≡ (if infinity then [] else outcome s prefix suffix index))

candidate_outcome :
    (infinity : Bool) (pattern prefix suffix public_key : List ℕ) (rows : List (List ℕ × List ℕ))
    (index : ℕ)
    → validate_pattern pattern prefix suffix ≡ ok tt
    → populate_prefix_intervals prefix ≡ ok rows
    → length public_key ≡ 64
    → Gives infinity public_key prefix suffix index (
        if infinity
        then []
        else evaluate_public_key public_key index
            (record { prefix = prefix; suffix = suffix; rows = rows }))
candidate_outcome infinity pattern prefix suffix public_key rows index valid filled size =
    let (s, encodes, gives) =
      evaluate_public_key-eq pattern prefix suffix public_key rows index valid filled size in
    (s, encodes, ap (λ found. if infinity then [] else found) gives)

-- For a valid pattern and the table of its prefix, both evaluations of a candidate, with coordinates
-- of four 64-bit or of eight 32-bit limbs, hand its index over exactly when the point is finite and
-- the host's matcher accepts the base-58 text of the key's payload: the prefilter loses nothing.
pub evaluate_candidates-Gives :
    (pattern prefix suffix : List ℕ) (rows : List (List ℕ × List ℕ)) (index : ℕ) (wide : Point)
    (legacy : AffinePoint)
    → validate_pattern pattern prefix suffix ≡ ok tt
    → populate_prefix_intervals prefix ≡ ok rows
    → (length wide.x ≡ 4) × (length wide.y ≡ 4)
    → (length legacy.x ≡ 8) × (length legacy.y ≡ 8)
    → Gives wide.infinity (Wide.point_to_public_key wide) prefix suffix index (
        evaluate_chain_candidate wide index
          (record { prefix = prefix; suffix = suffix; rows = rows }))
      × Gives legacy.infinity (Legacy.point_to_public_key legacy) prefix suffix index (
          evaluate_search_candidate legacy index
            (record { prefix = prefix; suffix = suffix; rows = rows }))
unfolding evaluate_chain_candidate evaluate_search_candidate
evaluate_candidates-Gives pattern prefix suffix rows index wide legacy valid filled four eight = (
  candidate_outcome wide.infinity pattern prefix suffix (Wide.point_to_public_key wide) rows index
      valid filled (wide_key_size wide four.0 four.1),
  candidate_outcome legacy.infinity pattern prefix suffix (Legacy.point_to_public_key legacy) rows
      index valid filled (legacy_key_size legacy eight.0 eight.1),
)
