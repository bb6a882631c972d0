-- ===== src/Base58/Carry.antt =====
-- The inner loop of `base58_encode` of native/src/tron.cpp.
use native.Mathlib.Nat.{pow-suc, pow-zero}
use tron_wallet_searcher.Common.{
  ℕ, zero, suc, ◌+◌, ◌-◌, ◌*◌, ◌/◌, ◌%◌, ◌^◌, ◌≤◌, ◌<◌, ◌≡◌, refl, ap, List, [], ◌∷◌, not, ◌||◌,
  ◌==◌, ltb, length, replicate, All, arith, Bool-cases, inl, inr,
}
use tron_wallet_searcher.Common.Words.{u32, u8}
use tron_wallet_searcher.Base58.{Added, add_byte}
use tron_wallet_searcher.Base58.Value.{le_value}

abbrev pub IsDigit : ℕ → Type 0
IsDigit d = d < 58

-- The cells from place `n` on hold nothing.
abbrev pub Clean : ℕ → List ℕ → Type 0
Clean n [] = Unit {0}
Clean zero (d ∷ ds) = (d ≡ 0) × Clean zero ds
Clean (suc n) (d ∷ ds) = Clean n ds

pub Clean-replicate : (n k : ℕ) → Clean n (replicate k 0)
Clean-replicate n zero = tt
Clean-replicate zero (suc k) = (refl, Clean-replicate zero k)
Clean-replicate (suc n) (suc k) = Clean-replicate n k

Clean-value : (ds : List ℕ) → Clean zero ds → le_value 58 ds ≡ 0
Clean-value [] h = refl
Clean-value (d ∷ ds) h = omega (arith, h.0, Clean-value ds h.1)

Clean-tail : (n d : ℕ) (ds : List ℕ) → Clean n (d ∷ ds) → Clean (n - 1) ds
Clean-tail zero d ds h = h.1
Clean-tail (suc n) d ds h = let e : suc n - 1 ≡ n = omega arith in rw e h

Clean-cons : (n m d : ℕ) (ds : List ℕ) → n ≡ suc m → Clean m ds → Clean n (d ∷ ds)
Clean-cons n m d ds e h = rw e h

-- What a pass over the cells `ds` gives.
pub record IsAdded (ds : List ℕ) (carry size processed : ℕ) (r : Added) : Type 0 where
  pub value : le_value 58 r.digits + r.carry * 58 ^ length ds ≡ carry + 256 * le_value 58 ds
  pub digits : All IsDigit r.digits
  pub cells : length r.digits ≡ length ds
  pub clean : Clean (r.processed - processed) r.digits
  pub grows : processed ≤ r.processed
  pub within : r.processed ≤ processed + length ds

-- The round of one cell, from what the rest of the pass gives.
IsAdded-more :
    (d : ℕ) (ds : List ℕ) (carry size processed : ℕ) (r : Added)
    → carry < 256
    → IsDigit d
    → IsAdded ds ((carry + 256 * d) / 58) size (processed + 1) r
    → IsAdded
        (d ∷ ds)
        carry
        size
        processed
        (record r { digits = u8 ((carry + 256 * d) % 58) ∷ r.digits })
IsAdded-more d ds carry size processed r hc hd rest = record {
  value = omega (
    arith,
    rest.value,
    ap (λ (t : ℕ). r.carry * t) (pow-suc 58 (length ds)),
    ap (λ (t : ℕ). 58 * t) rest.value,
  );
  digits = (omega arith, rest.digits);
  cells = ap suc rest.cells;
  clean =
      Clean-cons (r.processed - processed) (r.processed - (processed + 1)) _ r.digits
        (omega (arith, rest.grows)) rest.clean;
  grows = omega (arith, rest.grows);
  within = omega (arith, rest.within);
}

-- The round that stops: no carry, and every digit so far is processed.
IsAdded-done :
    (d : ℕ) (ds : List ℕ) (carry size processed : ℕ)
    → carry ≡ 0
    → size ≤ processed
    → All IsDigit (d ∷ ds)
    → Clean (size - processed) (d ∷ ds)
    → IsAdded
        (d ∷ ds)
        carry
        size
        processed
        (record { digits = d ∷ ds; carry = carry; processed = processed })
IsAdded-done d ds carry size processed none_left all_done hd hk =
    let at_end : size - processed ≡ 0 = omega arith in
    let empty : Clean zero (d ∷ ds) = rw at_end at hk in
    let here : processed - processed ≡ 0 = omega arith in
    record {
      value = rw none_left (omega (arith, Clean-value (d ∷ ds) empty));
      digits = hd;
      cells = refl;
      clean = rw here empty;
      grows = omega arith;
      within = omega arith;
    }

pub add_byte-IsAdded :
    (ds : List ℕ) (carry size processed : ℕ)
    → carry < 256
    → All IsDigit ds
    → Clean (size - processed) ds
    → IsAdded ds carry size processed (add_byte ds carry size processed)
unfolding add_byte
add_byte-IsAdded [] carry size processed hc hd hk = record {
  value = omega (arith, ap (λ (t : ℕ). carry * t) (pow-zero 58));
  digits = tt;
  cells = refl;
  clean = tt;
  grows = omega arith;
  within = omega arith;
}
add_byte-IsAdded (d ∷ ds) carry size processed hc hd hk =
    let fits : u32 (carry + 256 * d) ≡ carry + 256 * d = omega (arith, hd.0) in
    let next : size - processed - 1 ≡ size - (processed + 1) = omega arith in
    let rest =
      add_byte-IsAdded ds ((carry + 256 * d) / 58) size (processed + 1) (omega (arith, hd.0)) hd.1
        (rw next at (Clean-tail (size - processed) d ds hk)) in
    elim (Bool-cases (not (carry == 0) || ltb processed size)) [
      | inl more ↦ rw (more, fits) (IsAdded-more d ds carry size processed _ hc hd.0 rest)
      | inr done ↦
          rw done (IsAdded-done d ds carry size processed (ground arith) (ground arith) hd hk)
    ]
