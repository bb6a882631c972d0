-- ===== src/PrefixFilter/Written.antt =====
-- The characters of the variants of a prefix: native/src/cuda_runtime.cu.
use tron_wallet_searcher.Common.{
  ℕ, suc, ◌+◌, ◌/◌, ◌%◌, ◌<◌, ◌≡◌, refl, ap, ap₂, text, inl, inr, List, [], ◌∷◌, ◌++◌, append_assoc,
  map, true, false, not, ◌==◌, ==_iff, ◌&&◌, length, get_or, All, arith, Bool-cases,
}
use tron_wallet_searcher.Pattern.{contains}
use tron_wallet_searcher.Pattern.Valid.{IsBase58}
use tron_wallet_searcher.Base58.{base58_alphabet, alphabet_at}
use tron_wallet_searcher.Base58.Carry.{IsDigit}
use tron_wallet_searcher.PrefixFilter.{
  host_base58_contains, alternative, variable_positions, toggle_case, toggle_bits,
}
use tron_wallet_searcher.PrefixFilter.Variants.{
  next_place, toggle_bits-clear, toggle_bits-set, variable_positions-cons,
}

contains-place :
    (xs : List ℕ) (c : ℕ) → contains xs c ≡ true → (i : ℕ) × (i < length xs) × (get_or xs i 0 ≡ c)
unfolding contains
contains-place [] c h = ground arith
contains-place (x ∷ xs) c h = elim (Bool-cases (x == c)) [
  | inl here ↦ (0, omega arith, (==_iff x c).0 here)
  | inr there ↦
      let (i, below, same) = contains-place xs c (rw there at h) in (suc i, omega arith, same)
]

alphabet_size : length base58_alphabet ≡ 58
unfolding base58_alphabet text
alphabet_size = refl

-- Every character of the alphabet is that of some digit.
pub IsBase58-digit : (c : ℕ) → IsBase58 c → (d : ℕ) × IsDigit d × (alphabet_at d ≡ c)
unfolding alphabet_at
IsBase58-digit c h =
    let (d, below, same) = contains-place base58_alphabet c h in
    (d, omega (arith, alphabet_size), same)

pub digits_of :
    (cs : List ℕ)
    → All IsBase58 cs
    → (digits : List ℕ) × All IsDigit digits × (map alphabet_at digits ≡ cs)
digits_of [] h = ([], tt, refl)
digits_of (c ∷ cs) h =
    let (d, below, same) = IsBase58-digit c h.0 in
    let (digits, each, spelled) = digits_of cs h.1 in
    (d ∷ digits, (below, each), ap₂ ◌∷◌ same spelled)

-- A toggled letter is the other case of the letter.
toggled : (c : ℕ) → (alternative c == c) ≡ false → toggle_case c ≡ alternative c
unfolding alternative toggle_case
toggled c h = ground arith

free_parts :
    (c : ℕ)
    → (not (alternative c == c) && host_base58_contains (alternative c)) ≡ true
    → ((alternative c == c) ≡ false) × IsBase58 (alternative c)
unfolding host_base58_contains
free_parts c h = ground arith

-- Every variant of a Base58 prefix is a text of Base58 characters, as long as the prefix.
abbrev pub Written : ℕ → ℕ → List ℕ → List ℕ → Type 0
Written w i pre cs =
    (ts : List ℕ) × (toggle_bits w (variable_positions i cs) (pre ++ cs) ≡ pre ++ ts)
    × All IsBase58 ts
    × (length ts ≡ length cs)

back_in :
    (w i c : ℕ) (pre cs : List ℕ)
    → IsBase58 c
    → Written w (i + 1) (pre ++ c ∷ []) cs
    → (ts : List ℕ) × (toggle_bits w (variable_positions (i + 1) cs) (pre ++ c ∷ cs) ≡ pre ++ ts)
      × All IsBase58 ts
      × (length ts ≡ suc (length cs))
back_in w i c pre cs known (ts, runs, each, size) = (
  c ∷ ts,
  rw (append_assoc pre (c ∷ []) cs, append_assoc pre (c ∷ []) ts) at runs,
  (known, each),
  ap suc size,
)

pub toggle_bits-Written :
    (cs pre : List ℕ) (w i : ℕ) → length pre ≡ i + 1 → All IsBase58 cs → Written w i pre cs
unfolding toggle_bits variable_positions
toggle_bits-Written [] pre w i e h = ([], refl, tt, refl)
toggle_bits-Written (c ∷ cs) pre w i e h =
    elim (Bool-cases (not (alternative c == c) && host_base58_contains (alternative c))) [
      | inr fixed ↦
          rw (variable_positions-cons i c cs, fixed)
            (back_in w i c pre cs h.0
              (toggle_bits-Written cs (pre ++ c ∷ []) w (i + 1) (next_place pre c i e) h.1))
      | inl free ↦
          let positions = variable_positions (i + 1) cs in
          rw (variable_positions-cons i c cs, free)
            (elim (Bool-cases (w % 2 == 0)) [
              | inl clear ↦ rw (toggle_bits-clear w i positions (pre ++ c ∷ cs) clear) (
                  back_in (w / 2) i c pre cs h.0 (
                    toggle_bits-Written cs (pre ++ c ∷ []) (w / 2) (i + 1) (next_place pre c i e)
                      h.1))
              | inr set' ↦
                  let t = alternative c in
                  let (changed, known) = free_parts c free in
                  rw (toggle_bits-set w i c t positions pre cs set' e (toggled c changed)) (
                    back_in (w / 2) i t pre cs known (
                      toggle_bits-Written cs (pre ++ t ∷ []) (w / 2) (i + 1) (next_place pre t i e)
                        h.1))
            ])
    ]
