-- ===== src/Pattern/Valid.antt =====
-- The patterns that `validate_pattern` of native/src/tron.cpp accepts.
use tron_wallet_searcher.Common.{
  ℕ, ◌≤◌, ◌≡◌, ◌↔◌, refl, List, [], ◌∷◌, ◌++◌, true, length, get_or, Option, none, some, ok, arith,
  Bool-cases, inl, inr, All, All-append, ◌⊎◌, sym, ◌∙◌, text, text_eq, text_eq→eq,
}
use tron_wallet_searcher.Base58.{base58_alphabet}
use tron_wallet_searcher.Pattern.{
  contains, allowed_first_custom, pattern_lengths, check_characters, check_lengths,
  validate_pattern,
}
use tron_wallet_searcher.Pattern.Alphabet.{
  is_base58, is_first, contains-base58_alphabet, contains-allowed_first_custom,
}

abbrev pub IsBase58 : ℕ → Type 0
IsBase58 c = contains base58_alphabet c ≡ true

-- What a valid pattern is.
pub record IsPattern (pattern prefix suffix : List ℕ) : Type 0 where
  pub lengths : pattern_lengths pattern ≡ some (length prefix, length suffix)
  pub prefix_characters : All IsBase58 prefix
  pub suffix_characters : All IsBase58 suffix
  pub first : contains allowed_first_custom (get_or prefix 0 0) ≡ true

check_characters_sound : (cs : List ℕ) → check_characters cs ≡ ok tt → All IsBase58 cs
unfolding check_characters
check_characters_sound [] h = tt
check_characters_sound (c ∷ cs) h = elim (Bool-cases (contains base58_alphabet c)) [
  | inl yes' ↦ (yes', check_characters_sound cs (rw yes' at h))
  | inr no' ↦ ground arith
]

check_characters_complete : (cs : List ℕ) → All IsBase58 cs → check_characters cs ≡ ok tt
unfolding check_characters
check_characters_complete [] h = refl
check_characters_complete (c ∷ cs) h = rw h.0 (check_characters_complete cs h.1)

All-append_left : (xs ys : List ℕ) → All IsBase58 (xs ++ ys) → All IsBase58 xs × All IsBase58 ys
All-append_left [] ys h = (tt, h)
All-append_left (x ∷ xs) ys h = let (a, b) = All-append_left xs ys h.1 in ((h.0, a), b)

-- The chain of the three checks.
parts :
    (pattern prefix suffix : List ℕ)
    → validate_pattern pattern prefix suffix ≡ ok tt
    → (check_lengths pattern prefix suffix (pattern_lengths pattern) ≡ ok tt)
      × (check_characters (prefix ++ suffix) ≡ ok tt)
      × (contains allowed_first_custom (get_or prefix 0 0) ≡ true)
unfolding validate_pattern
parts pattern prefix suffix h = ground arith

check_lengths_sound :
    (pattern prefix suffix : List ℕ) (o : Option (ℕ × ℕ))
    → check_lengths pattern prefix suffix o ≡ ok tt
    → o ≡ some (length prefix, length suffix)
unfolding check_lengths
check_lengths_sound pattern prefix suffix none h = ground arith
check_lengths_sound pattern prefix suffix (some (a, b)) h = ground arith

check_lengths_complete :
    (pattern prefix suffix : List ℕ)
    → check_lengths pattern prefix suffix (some (length prefix, length suffix)) ≡ ok tt
unfolding check_lengths
check_lengths_complete pattern prefix suffix = ground arith

-- The checks of the code, one by one.
pub validate_pattern-IsPattern :
    (pattern prefix suffix : List ℕ)
    → (validate_pattern pattern prefix suffix ≡ ok tt) ↔ IsPattern pattern prefix suffix
validate_pattern-IsPattern pattern prefix suffix = (sound, complete)
  where
    sound : validate_pattern pattern prefix suffix ≡ ok tt → IsPattern pattern prefix suffix
    sound h =
        let (lengths, characters, first) = parts pattern prefix suffix h in
        let (front, back) =
          All-append_left prefix suffix (check_characters_sound (prefix ++ suffix) characters) in
        record {
          lengths = check_lengths_sound pattern prefix suffix (pattern_lengths pattern) lengths;
          prefix_characters = front;
          suffix_characters = back;
          first = first;
        }

    complete : IsPattern pattern prefix suffix → validate_pattern pattern prefix suffix ≡ ok tt
    complete v =
        unfold validate_pattern in
        rw (
          v.lengths,
          check_lengths_complete pattern prefix suffix,
          check_characters_complete (prefix ++ suffix)
              (All-append IsBase58 prefix suffix v.prefix_characters v.suffix_characters),
          v.first,
        )

-- The four patterns, each with the number of characters behind the T and at the end.
abbrev pub HasShape : List ℕ → ℕ → ℕ → Type 0
HasShape pattern front back =
    ((pattern ≡ b'3' ∷ b'x' ∷ b'4' ∷ []) × (front ≡ 3) × (back ≡ 4))
    ⊎ (((pattern ≡ b'2' ∷ b'x' ∷ b'5' ∷ []) × (front ≡ 2) × (back ≡ 5))
        ⊎ (((pattern ≡ b'4' ∷ b'x' ∷ b'3' ∷ []) × (front ≡ 4) × (back ≡ 3))
            ⊎ ((pattern ≡ b'2' ∷ b'x' ∷ b'2' ∷ []) × (front ≡ 2) × (back ≡ 2))))

pattern_lengths-HasShape :
    (pattern : List ℕ) (front back : ℕ)
    → pattern_lengths pattern ≡ some (front, back)
    → HasShape pattern front back
unfolding pattern_lengths text
pattern_lengths-HasShape pattern front back h = elim (Bool-cases (text_eq pattern (text "3x4"))) [
  | inl t ↦ inl (text_eq→eq pattern (text "3x4") t, ground (arith, h, t), ground (arith, h, t))
  | inr f ↦ elim (Bool-cases (text_eq pattern (text "2x5"))) [
    | inl t ↦
        inr (
          inl (text_eq→eq pattern (text "2x5") t, ground (arith, h, f, t), ground (arith, h, f, t)))
    | inr g ↦ elim (Bool-cases (text_eq pattern (text "4x3"))) [
      | inl t ↦ inr (
          inr (
            inl (
              text_eq→eq pattern (text "4x3") t,
              ground (arith, h, f, g, t),
              ground (arith, h, f, g, t),
            )))
      | inr k ↦ elim (Bool-cases (text_eq pattern (text "2x2"))) [
        | inl t ↦ inr (
            inr (
              inr (
                text_eq→eq pattern (text "2x2") t,
                ground (arith, h, f, g, k, t),
                ground (arith, h, f, g, k, t),
              )))
        | inr l ↦ ground (arith, h, f, g, k, l)
      ]
    ]
  ]
]

HasShape-pattern_lengths :
    (pattern : List ℕ) (front back : ℕ)
    → HasShape pattern front back
    → pattern_lengths pattern ≡ some (front, back)
unfolding pattern_lengths text text_eq
HasShape-pattern_lengths pattern front back (inl (p, a, b)) = rw (p, a, b) refl
HasShape-pattern_lengths pattern front back (inr (inl (p, a, b))) = rw (p, a, b) refl
HasShape-pattern_lengths pattern front back (inr (inr (inl (p, a, b)))) = rw (p, a, b) refl
HasShape-pattern_lengths pattern front back (inr (inr (inr (p, a, b)))) = rw (p, a, b) refl

-- A vanity pattern that an address can match, in terms of its characters.
pub record IsVanity (pattern prefix suffix : List ℕ) : Type 0 where
  pub shape : HasShape pattern (length prefix) (length suffix)
  pub prefix_base58 : All (λ c. is_base58 c ≡ true) prefix
  pub suffix_base58 : All (λ c. is_base58 c ≡ true) suffix
  pub first_base58 : is_first (get_or prefix 0 0) ≡ true

IsBase58-is_base58 : (cs : List ℕ) → All IsBase58 cs → All (λ c. is_base58 c ≡ true) cs
IsBase58-is_base58 [] each = tt
IsBase58-is_base58 (c ∷ cs) each =
    (sym (contains-base58_alphabet c) ∙ each.0, IsBase58-is_base58 cs each.1)

is_base58-IsBase58 : (cs : List ℕ) → All (λ c. is_base58 c ≡ true) cs → All IsBase58 cs
is_base58-IsBase58 [] each = tt
is_base58-IsBase58 (c ∷ cs) each =
    (contains-base58_alphabet c ∙ each.0, is_base58-IsBase58 cs each.1)

-- The check succeeds exactly on these: 3x4, 2x5, 4x3 or 2x2 with a prefix and a suffix of its lengths,
-- whose characters are digits but 0 and letters but I, O and l, the first an upper-case one or 9.
pub validate_pattern_iff :
    (pattern prefix suffix : List ℕ)
    → (validate_pattern pattern prefix suffix ≡ ok tt) ↔ IsVanity pattern prefix suffix
validate_pattern_iff pattern prefix suffix = (sound, complete)
  where
    sound : validate_pattern pattern prefix suffix ≡ ok tt → IsVanity pattern prefix suffix
    sound h =
        let v = (validate_pattern-IsPattern pattern prefix suffix).0 h in
        record {
          shape = pattern_lengths-HasShape pattern (length prefix) (length suffix) v.lengths;
          prefix_base58 = IsBase58-is_base58 prefix v.prefix_characters;
          suffix_base58 = IsBase58-is_base58 suffix v.suffix_characters;
          first_base58 = sym (contains-allowed_first_custom (get_or prefix 0 0)) ∙ v.first;
        }

    complete : IsVanity pattern prefix suffix → validate_pattern pattern prefix suffix ≡ ok tt
    complete v = (validate_pattern-IsPattern pattern prefix suffix).1 (record {
      lengths = HasShape-pattern_lengths pattern (length prefix) (length suffix) v.shape;
      prefix_characters = is_base58-IsBase58 prefix v.prefix_base58;
      suffix_characters = is_base58-IsBase58 suffix v.suffix_base58;
      first = contains-allowed_first_custom (get_or prefix 0 0) ∙ v.first_base58;
    })

pattern_lengths-bounds :
    (pattern : List ℕ) (a b : ℕ)
    → pattern_lengths pattern ≡ some (a, b)
    → (2 ≤ a) × (a ≤ 4) × (2 ≤ b) × (b ≤ 5)
unfolding pattern_lengths
pattern_lengths-bounds pattern a b h = ground arith

-- A valid pattern fits the arrays of the device: two to four characters of prefix, two to five of
-- suffix.
pub IsPattern-bounds :
    (pattern prefix suffix : List ℕ)
    → validate_pattern pattern prefix suffix ≡ ok tt
    → (2 ≤ length prefix) × (length prefix ≤ 4) × (2 ≤ length suffix) × (length suffix ≤ 5)
IsPattern-bounds pattern prefix suffix h =
    pattern_lengths-bounds pattern (length prefix) (length suffix)
      ((validate_pattern-IsPattern pattern prefix suffix).0 h).lengths
