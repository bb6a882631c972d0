-- ===== src/Pattern/Alphabet.antt =====
-- The characters of `base58_alphabet` and of `allowed_first_custom` of native/src/tron.cpp.
use mathlib.Core.Bool.{false≢true}
use tron_wallet_searcher.Common.{
  ℕ, ◌≤◌, ◌≡◌, refl, List, [], ◌∷◌, true, arith, Bool-cases, inl, inr, All, Bool, false, not, ◌==◌,
  ==_iff, ◌&&◌, ◌||◌, leb, ltb, if◌then◌else◌, zero, suc, ◌<◌, sym, subst, ◌∙◌, ∧-split, text,
}
use tron_wallet_searcher.Base58.{base58_alphabet}
use tron_wallet_searcher.Pattern.{contains, allowed_first_custom}

-- The Base58 alphabet: the digits but 0, and the letters but I, O and l.
unfoldable pub is_upper_base58 : ℕ → Bool
is_upper_base58 c =
    (leb b'A' c && leb c b'H') || (leb b'J' c && leb c b'N') || (leb b'P' c && leb c b'Z')

unfoldable pub is_base58 : ℕ → Bool
unfolding is_upper_base58
is_base58 c =
    (leb b'1' c && leb c b'9')
    || is_upper_base58 c
    || (leb b'a' c && leb c b'k')
    || (leb b'm' c && leb c b'z')

-- A first character that an address can have behind its T.
unfoldable pub is_first : ℕ → Bool
unfolding is_upper_base58
is_first c = (c == b'9') || is_upper_base58 c

-- Two tests that agree on the numbers below a bound.
agree_below : ℕ → (ℕ → Bool) → (ℕ → Bool) → Bool
agree_below zero f g = true
agree_below (suc n) f g = (if f n then g n else not (g n)) && agree_below n f g

same_outcome : (a b : Bool) → (if a then b else not b) ≡ true → a ≡ b
same_outcome true b h = sym h
same_outcome false true h = absurd (false≢true h)
same_outcome false false h = refl

agree_below_lem : (n : ℕ) (f g : ℕ → Bool) (c : ℕ) → agree_below n f g ≡ true → c < n → f c ≡ g c
unfolding agree_below
agree_below_lem zero f g c h lt = absurd (omega arith)
agree_below_lem (suc n) f g c h lt =
    let (here, rest) = ∧-split (if f n then g n else not (g n)) (agree_below n f g) h in
    elim (Bool-cases (c == n)) [
      | inl last ↦
          let e : c ≡ n = (==_iff c n).0 last in
          subst (λ (k : ℕ). f k ≡ g k) (sym e) (same_outcome (f n) (g n) here)
      | inr before ↦ agree_below_lem n f g c rest (ground arith)
    ]

-- A list of numbers below a bound has no number from the bound on.
contains-past : (n c : ℕ) (xs : List ℕ) → All (λ x. x < n) xs → n ≤ c → contains xs c ≡ false
unfolding contains
contains-past n c [] each past = refl
contains-past n c (x ∷ xs) each past = ground (arith, contains-past n c xs each.1 past, each.0)

pub contains-base58_alphabet : (c : ℕ) → contains base58_alphabet c ≡ is_base58 c
unfolding is_base58 is_upper_base58 text
contains-base58_alphabet c = elim (Bool-cases (ltb c 128)) [
  | inl ascii ↦
      agree_below_lem 128 (contains base58_alphabet) is_base58 c
        (unfold agree_below in unfold contains in unfold base58_alphabet in refl)
        (ground (arith, ascii))
  | inr past ↦
      let far : is_base58 c ≡ false = ground (arith, past) in
      contains-past 128 c base58_alphabet (unfold base58_alphabet in omega arith)
        (ground (arith, past))
      ∙ sym far
]

pub contains-allowed_first_custom : (c : ℕ) → contains allowed_first_custom c ≡ is_first c
unfolding is_first is_upper_base58
contains-allowed_first_custom c = elim (Bool-cases (ltb c 128)) [
  | inl ascii ↦
      agree_below_lem 128 (contains allowed_first_custom) is_first c
        (unfold agree_below in
          unfold contains in unfold allowed_first_custom in unfold text in refl)
        (ground (arith, ascii))
  | inr past ↦
      let far : is_first c ≡ false = ground (arith, past) in
      contains-past 128 c allowed_first_custom
        (unfold allowed_first_custom in unfold text in omega arith) (ground (arith, past))
      ∙ sym far
]
