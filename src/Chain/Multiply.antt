-- ===== src/Chain/Multiply.antt =====
-- The eight words of a product: `multiply_full` of native/src/cuda_chain.cuh.
use tron_wallet_searcher.Common.{
  ℕ, zero, suc, ◌+◌, ◌*◌, ◌/◌, ◌^◌, ◌≡◌, ◌<◌, ◌≤◌, refl, List, [], ◌∷◌, length, All, get_or,
  replicate, arith, ◌∙◌,
}
use tron_wallet_searcher.Common.Words.{u64, IsU64}
use tron_wallet_searcher.Chain.{sum_of, carry_of, multiply_row, multiply_rows, multiply_full}
use tron_wallet_searcher.Chain.Limbs.{value, IsWide, sum_of-exact}
use tron_wallet_searcher.Common.Arrays.{get_or-replicate}
use tron_wallet_searcher.Base58.Value.{le_value-replicate}
use native.Mathlib.Nat.{mul-le-mul}

product_below : (x y : ℕ) → IsU64 x → IsU64 y → x * y ≤ 0xffffffffffffffff * 0xffffffffffffffff
product_below x y small also =
    mul-le-mul {n₂ = 0xffffffffffffffff} {m₂ = 0xffffffffffffffff} (omega arith) (omega arith)

-- One step of the inner loop: the word written, and the carry behind it.
abbrev word_of : ℕ → ℕ → ℕ → ℕ → ℕ
word_of x y p carry = sum_of (sum_of p (u64 (x * y))) carry

abbrev next_of : ℕ → ℕ → ℕ → ℕ → ℕ
next_of x y p carry =
    u64 (x * y / 2 ^ 64 + carry_of p (u64 (x * y)) + carry_of (sum_of p (u64 (x * y))) carry)

step_exact :
    (p m carry : ℕ)
    → IsU64 p
    → m ≤ 0xffffffffffffffff * 0xffffffffffffffff
    → IsU64 carry
    → sum_of (sum_of p (u64 m)) carry
        + 2 ^ 64 * u64 (m / 2 ^ 64 + carry_of p (u64 m) + carry_of (sum_of p (u64 m)) carry)
      ≡ p + m + carry
step_exact p m carry small below also =
    let first = sum_of-exact p (u64 m) small (omega arith) in
    let next = sum_of-exact (sum_of p (u64 m)) carry (omega arith) also in
    omega (arith, first, next)

-- A row adds `x * ys` to the words, and leaves what is behind its last carry.
abbrev IsRow : ℕ → List ℕ → List ℕ → ℕ → List ℕ → Type 0
IsRow x ys ps carry out =
    (value out ≡ value ps + x * value ys + carry)
    × IsWide (length ps) out
    × ((i : ℕ) → length ys < i → get_or out i 0 ≡ get_or ps i 0)

multiply_row-IsRow :
    (x : ℕ) (ys ps : List ℕ) (carry : ℕ)
    → IsU64 x
    → All IsU64 ys
    → All IsU64 ps
    → IsU64 carry
    → length ys < length ps
    → get_or ps (length ys) 0 ≡ 0
    → IsRow x ys ps carry (multiply_row x ys ps carry)
unfolding multiply_row
multiply_row-IsRow x ys [] carry small h k also room free = absurd (omega arith)
multiply_row-IsRow x [] (p ∷ ps) carry small h k also room free =
    (omega (arith, free), (refl, (also, k.1)), behind)
  where
    behind : (i : ℕ) → 0 < i → get_or (carry ∷ ps) i 0 ≡ get_or (p ∷ ps) i 0
    behind zero i = absurd (omega arith)
    behind (suc n) i = refl
multiply_row-IsRow x (y ∷ ys) (p ∷ ps) carry small h k also room free =
    let word = word_of x y p carry in
    let next = next_of x y p carry in
    let step = step_exact p (x * y) carry k.0 (product_below x y small h.0) also in
    let rest = multiply_row x ys ps next in
    let (sum, wide, same) =
      multiply_row-IsRow x ys ps next small h.1 k.1 (omega arith) (omega arith) free in
    (
      omega (arith, step, sum),
      (omega (arith, wide.0), (omega arith, wide.1)),
      behind word rest same,
    )
  where
    behind :
        (word : ℕ) (rest : List ℕ)
        → ((i : ℕ) → length ys < i → get_or rest i 0 ≡ get_or ps i 0)
        → (i : ℕ) → suc (length ys) < i
        → get_or (word ∷ rest) i 0 ≡ get_or (p ∷ ps) i 0
    behind word rest same zero far = absurd (omega arith)
    behind word rest same (suc n) far = same n (omega arith)

-- The rows together add the product.
multiply_rows-exact :
    (xs ys ps : List ℕ)
    → All IsU64 xs
    → All IsU64 ys
    → All IsU64 ps
    → length xs + length ys ≤ length ps
    → ((i : ℕ) → length ys ≤ i → get_or ps i 0 ≡ 0)
    → (value (multiply_rows xs ys ps) ≡ value ps + value xs * value ys)
      × IsWide (length ps) (multiply_rows xs ys ps)
unfolding multiply_rows
multiply_rows-exact [] ys ps h k l room free = (omega arith, (refl, l))
multiply_rows-exact (x ∷ xs) ys ps h k l room free =
    let row =
      multiply_row-IsRow x ys ps 0 h.0 k l (omega arith) (omega arith)
        (free (length ys) (omega arith)) in
    go (multiply_row x ys ps 0) row.0 row.1 (λ i far. row.2 i far ∙ free i (omega arith))
      (λ limbs. multiply_rows-exact xs ys limbs h.1 k)
  where
    go :
        (out : List ℕ)
        → value out ≡ value ps + x * value ys + 0
        → IsWide (length ps) out
        → ((i : ℕ) → length ys < i → get_or out i 0 ≡ 0)
        → ((limbs : List ℕ)
            → All IsU64 limbs
            → length xs + length ys ≤ length limbs
            → ((i : ℕ) → length ys ≤ i → get_or limbs i 0 ≡ 0)
            → (value (multiply_rows xs ys limbs) ≡ value limbs + value xs * value ys)
              × IsWide (length limbs) (multiply_rows xs ys limbs))
        → (value (elim out [ [] ↦ [] | limb ∷ limbs ↦ limb ∷ multiply_rows xs ys limbs ])
            ≡ value ps + value (x ∷ xs) * value ys)
          × IsWide
              (length ps)
              (elim out [ [] ↦ [] | limb ∷ limbs ↦ limb ∷ multiply_rows xs ys limbs ])
    go [] sum wide behind onward = absurd (omega (arith, wide.0))
    go (limb ∷ limbs) sum wide behind onward =
        let (rest, (same, all)) =
          onward limbs wide.1.1 (omega (arith, wide.0)) (λ i far. behind (suc i) (omega arith)) in
        (omega (arith, rest, sum), (omega (arith, same, wide.0), (wide.1.0, all)))

pub multiply_full-exact :
    (xs ys : List ℕ)
    → IsWide 4 xs
    → IsWide 4 ys
    → (value (multiply_full xs ys) ≡ value xs * value ys) × IsWide 8 (multiply_full xs ys)
unfolding multiply_full
multiply_full-exact xs ys wide also =
    let (sum, all) =
      multiply_rows-exact xs ys (replicate 8 0) wide.1 also.1 zeroes (omega (arith, wide.0, also.0))
        (λ i far. get_or-replicate 8 i 0) in
    (omega (arith, sum, le_value-replicate (2 ^ 64) 8), all)
  where
    zeroes : All IsU64 (replicate {A = ℕ} 8 0)
    zeroes = let z : IsU64 0 = omega arith in (z, (z, (z, (z, (z, (z, (z, (z, tt))))))))
