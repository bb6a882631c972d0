-- ===== src/PrefixFilter/Variants.antt =====
-- The variants of a prefix in `populate_prefix_intervals` of native/src/cuda_runtime.cu.
use native.Mathlib.Nat.{pow-suc, pow-zero}
use tron_wallet_searcher.Common.{
  ℕ, suc, ◌+◌, ◌*◌, ◌/◌, ◌%◌, ◌^◌, ◌<◌, ◌≡◌, refl, sym, ap, subst, ◌∙◌, inl, inr, List, [], ◌∷◌,
  ◌++◌, append_assoc, true, false, not, ◌==◌, ==_iff, ◌&&◌, if◌then◌else◌, length, length-append,
  get_or, set, arith, Bool-cases,
}
use tron_wallet_searcher.Pattern.{contains, is_alpha, to_lower, loose_equal}
use tron_wallet_searcher.Pattern.Valid.{IsBase58}
use tron_wallet_searcher.Base58.{base58_alphabet}
use tron_wallet_searcher.PrefixFilter.{
  host_base58_contains, alternative, variable_positions, toggle_case, toggle_bits,
}

-- `ts` spells `cs`: Base58 characters that are equal up to case, one by one.
abbrev pub Spells : List ℕ → List ℕ → Type 0
Spells [] [] = Unit {0}
Spells [] (c ∷ cs) = ⊥
Spells (t ∷ ts) [] = ⊥
Spells (t ∷ ts) (c ∷ cs) = (loose_equal t c ≡ true) × IsBase58 t × Spells ts cs

-- A spelling that differs is the other case.
other_case :
    (t c : ℕ)
    → loose_equal t c ≡ true
    → (t == c) ≡ false
    → (alternative c ≡ t) × (toggle_case c ≡ t) × ((alternative c == c) ≡ false)
unfolding loose_equal is_alpha to_lower alternative toggle_case
other_case t c h n = ground arith

pub set-middle : (pre cs : List ℕ) (c t : ℕ) → set (pre ++ c ∷ cs) (length pre) t ≡ pre ++ t ∷ cs
set-middle [] cs c t = refl
set-middle (x ∷ pre) cs c t = ap (◌∷◌ x) (set-middle pre cs c t)

pub get_or-middle : (pre cs : List ℕ) (c d : ℕ) → get_or (pre ++ c ∷ cs) (length pre) d ≡ c
get_or-middle [] cs c d = refl
get_or-middle (x ∷ pre) cs c d = get_or-middle pre cs c d

abbrev Chosen : ℕ → List ℕ → List ℕ → List ℕ → Type 0
Chosen i pre cs ts =
    (w : ℕ) × (w < 2 ^ length (variable_positions i cs))
    × (toggle_bits w (variable_positions i cs) (pre ++ cs) ≡ pre ++ ts)

pub next_place :
    (pre : List ℕ) (c i : ℕ) → length pre ≡ i + 1 → length (pre ++ c ∷ []) ≡ (i + 1) + 1
next_place pre c i e = omega (arith, length-append pre (c ∷ []))

-- A variant whose lowest bit is clear leaves the first place alone.
pub toggle_bits-clear :
    (w i : ℕ) (ps xs : List ℕ)
    → (w % 2 == 0) ≡ true
    → toggle_bits w (i ∷ ps) xs ≡ toggle_bits (w / 2) ps xs
unfolding toggle_bits
toggle_bits-clear w i ps xs bit = rw bit refl

-- A variant whose lowest bit is set toggles it.
pub toggle_bits-set :
    (w i c t : ℕ) (ps pre cs : List ℕ)
    → (w % 2 == 0) ≡ false
    → length pre ≡ i + 1
    → toggle_case c ≡ t
    → toggle_bits w (i ∷ ps) (pre ++ c ∷ cs) ≡ toggle_bits (w / 2) ps (pre ++ t ∷ cs)
unfolding toggle_bits
toggle_bits-set w i c t ps pre cs bit e other =
    rw (bit, sym e, get_or-middle pre cs c 0, other, set-middle pre cs c t) refl

even : (w : ℕ) → ((2 * w % 2 == 0) ≡ true) × (2 * w / 2 ≡ w)
even w = (ground arith, omega arith)

odd : (w : ℕ) → (((2 * w + 1) % 2 == 0) ≡ false) × ((2 * w + 1) / 2 ≡ w)
odd w = (ground arith, omega arith)

-- How the list of the places begins.
pub variable_positions-cons :
    (i c : ℕ) (cs : List ℕ)
    → variable_positions i (c ∷ cs) ≡ (
        if not (alternative c == c) && host_base58_contains (alternative c)
        then i ∷ variable_positions (i + 1) cs
        else variable_positions (i + 1) cs)
unfolding variable_positions
variable_positions-cons i c cs = refl

doubled : (w n : ℕ) → w < 2 ^ n → 2 * w + 1 < 2 ^ suc n
doubled w n h = omega (arith, pow-suc 2 n)

-- One more character in front that is written as it is requested.
keep_first :
    (i c : ℕ) (pre cs ts : List ℕ)
    → Chosen (i + 1) (pre ++ c ∷ []) cs ts
    → Chosen i pre (c ∷ cs) (c ∷ ts)
keep_first i c pre cs ts (w, below, runs) =
    let runs' : toggle_bits w (variable_positions (i + 1) cs) (pre ++ c ∷ cs) ≡ pre ++ c ∷ ts =
      rw (append_assoc pre (c ∷ []) cs, append_assoc pre (c ∷ []) ts) at runs in
    elim (Bool-cases (not (alternative c == c) && host_base58_contains (alternative c))) [
      | inl free ↦
          rw (variable_positions-cons i c cs, free)
            (
              2 * w,
              omega (arith, doubled w (length (variable_positions (i + 1) cs)) below),
              toggle_bits-clear (2 * w) i (variable_positions (i + 1) cs) (pre ++ c ∷ cs) (even w).0
                  ∙ rw (even w).1 runs',
            )
      | inr fixed ↦ rw (variable_positions-cons i c cs, fixed) (w, below, runs')
    ]

-- One more character in front that is written in the other case.
flip_first :
    (i c t : ℕ) (pre cs ts : List ℕ)
    → length pre ≡ i + 1
    → loose_equal t c ≡ true
    → IsBase58 t
    → (t == c) ≡ false
    → Chosen (i + 1) (pre ++ t ∷ []) cs ts
    → Chosen i pre (c ∷ cs) (t ∷ ts)
unfolding host_base58_contains
flip_first i c t pre cs ts e loose known differs (w, below, runs) =
    let runs' : toggle_bits w (variable_positions (i + 1) cs) (pre ++ t ∷ cs) ≡ pre ++ t ∷ ts =
      rw (append_assoc pre (t ∷ []) cs, append_assoc pre (t ∷ []) ts) at runs in
    let (other, toggled, changed) = other_case t c loose differs in
    let known' : contains base58_alphabet (alternative c) ≡ true = rw other known in
    rw (variable_positions-cons i c cs, changed, known')
      (
        2 * w + 1,
        doubled w (length (variable_positions (i + 1) cs)) below,
        toggle_bits-set (2 * w + 1) i c t (variable_positions (i + 1) cs) pre cs (odd w).0 e toggled
            ∙ rw (odd w).1 runs',
      )

-- Some variant toggles the prefix into each of its spellings.
pub toggle_bits-Spells :
    (cs ts pre : List ℕ) (i : ℕ) → length pre ≡ i + 1 → Spells ts cs → Chosen i pre cs ts
unfolding toggle_bits variable_positions
toggle_bits-Spells [] [] pre i e h = (0, omega (arith, pow-zero 2), refl)
toggle_bits-Spells [] (t ∷ ts) pre i e h = absurd h
toggle_bits-Spells (c ∷ cs) [] pre i e h = absurd h
toggle_bits-Spells (c ∷ cs) (t ∷ ts) pre i e h =
    let rest = toggle_bits-Spells cs ts (pre ++ t ∷ []) (i + 1) (next_place pre t i e) h.2 in
    elim (Bool-cases (t == c)) [
      | inl same ↦
          subst (λ s. Chosen i pre (c ∷ cs) (s ∷ ts)) (sym ((==_iff t c).0 same))
            (keep_first i c pre cs ts (rw ((==_iff t c).0 same) at rest))
      | inr differs ↦ flip_first i c t pre cs ts e h.0 h.1 differs rest
    ]
