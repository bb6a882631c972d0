-- ===== src/Pattern/Matches.antt =====
-- A specification of `matches_pattern` of native/src/tron.cpp, and the device copy of
-- native/src/cuda_runtime.cu.
use tron_wallet_searcher.Common.{
  ℕ, zero, suc, ◌+◌, ◌-◌, ◌^◌, ◌≤◌, ◌<◌, ◌≡◌, ◌↔◌, refl, List, [], ◌∷◌, true, ◌==◌, ==_iff,
  if◌then◌else◌, length, get_or, arith,
}
use tron_wallet_searcher.Common.Words.{u64}
use tron_wallet_searcher.Pattern.{
  to_lower, loose_equal, prefix_matches, suffix_matches, matches_pattern, device_prefix_matches,
  device_suffix_matches, device_pattern_matches,
}
use tron_wallet_searcher.Pattern.Loose.{loose_equal_iff, device_differs-loose_equal}

abbrev pub char_at : List ℕ → ℕ → ℕ
char_at s i = get_or s i 0

-- The character at `index` of a pattern is met: exactly at the first place behind the T, and up to
-- case elsewhere.
abbrev pub Meets : ℕ → ℕ → ℕ → Type 0
Meets zero actual requested = actual ≡ requested
Meets (suc index) actual requested = to_lower actual ≡ to_lower requested

-- What it is for an address to match a pattern.
pub record Matches (address prefix suffix : List ℕ) : Type 0 where
  pub size : length address ≡ 34
  pub first : char_at address 0 ≡ b'T'
  pub prefixed : (i : ℕ) → i < length prefix → Meets i (char_at address (i + 1)) (char_at prefix i)
  pub suffixed :
      (i : ℕ)
      → i < length suffix
      → to_lower (char_at address (34 - length suffix + i)) ≡ to_lower (char_at suffix i)

-- The test of the code at one place.
Meets-iff :
    (index actual c : ℕ)
    → ((if index == 0 then actual == c else loose_equal actual c) ≡ true) ↔ Meets index actual c
Meets-iff zero actual c = ==_iff actual c
Meets-iff (suc index) actual c = ground (arith, loose_equal_iff actual c)

prefix_sound :
    (address : List ℕ) (index : ℕ) (cs : List ℕ)
    → prefix_matches address index cs ≡ true
    → (i j : ℕ) → j ≡ index + i
    → i < length cs
    → Meets j (char_at address (j + 1)) (char_at cs i)
unfolding prefix_matches
prefix_sound address index [] h i j e lt = absurd (omega arith)
prefix_sound address index (c ∷ cs) h zero j e lt =
    let same : j ≡ index = omega arith in
    rw same ((Meets-iff index (char_at address (index + 1)) c).0 (ground arith))
prefix_sound address index (c ∷ cs) h (suc i) j e lt =
    prefix_sound address (index + 1) cs (ground arith) i j (omega arith) (omega arith)

prefix_complete :
    (address : List ℕ) (index : ℕ) (cs : List ℕ)
    → ((i j : ℕ) → j ≡ index + i → i < length cs → Meets j (char_at address (j + 1)) (char_at cs i))
    → prefix_matches address index cs ≡ true
unfolding prefix_matches
prefix_complete address index [] h = refl
prefix_complete address index (c ∷ cs) h = rw (
  (Meets-iff index (char_at address (index + 1)) c).1 (h 0 index (omega arith) (omega arith)),
  prefix_complete address (index + 1) cs (λ i j e lt. h (suc i) j (omega arith) (omega arith)),
)

suffix_sound :
    (address : List ℕ) (position : ℕ) (cs : List ℕ)
    → suffix_matches address position cs ≡ true
    → (i j : ℕ) → j ≡ position + i
    → i < length cs
    → to_lower (char_at address j) ≡ to_lower (char_at cs i)
unfolding suffix_matches
suffix_sound address position [] h i j e lt = absurd (omega arith)
suffix_sound address position (c ∷ cs) h zero j e lt =
    let same : j ≡ position = omega arith in
    rw same ((loose_equal_iff (char_at address position) c).0 (ground arith))
suffix_sound address position (c ∷ cs) h (suc i) j e lt =
    suffix_sound address (position + 1) cs (ground arith) i j (omega arith) (omega arith)

suffix_complete :
    (address : List ℕ) (position : ℕ) (cs : List ℕ)
    → ((i j : ℕ)
        → j ≡ position + i
        → i < length cs
        → to_lower (char_at address j) ≡ to_lower (char_at cs i))
    → suffix_matches address position cs ≡ true
unfolding suffix_matches
suffix_complete address position [] h = refl
suffix_complete address position (c ∷ cs) h = rw (
  (loose_equal_iff (char_at address position) c).1 (h 0 position (omega arith) (omega arith)),
  suffix_complete address (position + 1) cs (λ i j e lt. h (suc i) j (omega arith) (omega arith)),
)

-- The subtraction on size_t does not wrap.
suffix_start : (n k : ℕ) → n ≡ 34 → k ≤ 34 → u64 (n + 2 ^ 64 - k) ≡ 34 - k
suffix_start n k e h = omega arith

-- The four tests of the code.
matches_pattern_parts :
    (address prefix suffix : List ℕ)
    → matches_pattern address prefix suffix ≡ true
    → (length address ≡ 34)
      × (char_at address 0 ≡ b'T')
      × (prefix_matches address 0 prefix ≡ true)
      × (suffix_matches address (u64 (length address + 2 ^ 64 - length suffix)) suffix ≡ true)
unfolding matches_pattern
matches_pattern_parts address prefix suffix h = ground arith

matches_pattern_whole :
    (address prefix suffix : List ℕ)
    → length address ≡ 34
    → char_at address 0 ≡ b'T'
    → prefix_matches address 0 prefix ≡ true
    → suffix_matches address (u64 (length address + 2 ^ 64 - length suffix)) suffix ≡ true
    → matches_pattern address prefix suffix ≡ true
unfolding matches_pattern
matches_pattern_whole address prefix suffix size first front back = ground arith

-- The code accepts an address exactly when it matches, for a suffix of at most 34 characters.
pub matches_pattern_iff :
    (address prefix suffix : List ℕ)
    → length suffix ≤ 34
    → (matches_pattern address prefix suffix ≡ true) ↔ Matches address prefix suffix
matches_pattern_iff address prefix suffix short = (sound, complete)
  where
    sound : matches_pattern address prefix suffix ≡ true → Matches address prefix suffix
    sound h =
        let (size, first, front, back) = matches_pattern_parts address prefix suffix h in
        record {
          size = size;
          first = first;
          prefixed = λ i lt. prefix_sound address 0 prefix front i i (omega arith) lt;
          suffixed = λ i lt.
              suffix_sound address (34 - length suffix) suffix
                (rw (suffix_start (length address) (length suffix) size short) at back) i _ refl lt;
        }

    complete : Matches address prefix suffix → matches_pattern address prefix suffix ≡ true
    complete m =
        let front =
          prefix_complete address 0 prefix
            (λ i j e lt. let same : j ≡ i = omega arith in rw same (m.prefixed i lt)) in
        let back =
          suffix_complete address (34 - length suffix) suffix
            (λ i j e lt. rw e (m.suffixed i lt)) in
        matches_pattern_whole address prefix suffix m.size m.first front
          (rw (suffix_start (length address) (length suffix) m.size short) back)

device_prefix-eq :
    (address : List ℕ) (index : ℕ) (cs : List ℕ)
    → device_prefix_matches address index cs ≡ prefix_matches address index cs
unfolding device_prefix_matches prefix_matches
device_prefix-eq address index [] = refl
device_prefix-eq address index (c ∷ cs) = ground (
  arith,
  device_prefix-eq address (index + 1) cs,
  device_differs-loose_equal (char_at address (index + 1)) c,
)

device_suffix-eq :
    (address : List ℕ) (position : ℕ) (cs : List ℕ)
    → device_suffix_matches address position cs ≡ suffix_matches address position cs
unfolding device_suffix_matches suffix_matches
device_suffix-eq address position [] = refl
device_suffix-eq address position (c ∷ cs) = ground (
  arith,
  device_suffix-eq address (position + 1) cs,
  device_differs-loose_equal (char_at address position) c,
)

-- On an address of 34 characters that begins with a T the device code answers what the reference
-- answers, for a suffix of at most 34 characters.
pub device_pattern_matches-eq-matches_pattern :
    (address prefix suffix : List ℕ)
    → length address ≡ 34
    → char_at address 0 ≡ b'T'
    → length suffix ≤ 34
    → device_pattern_matches address prefix suffix ≡ matches_pattern address prefix suffix
unfolding device_pattern_matches matches_pattern
device_pattern_matches-eq-matches_pattern address prefix suffix size first short = rw (
  device_prefix-eq address 0 prefix,
  device_suffix-eq address (34 - length suffix) suffix,
  suffix_start (length address) (length suffix) size short,
  size,
  first,
)
