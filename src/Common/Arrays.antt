-- ===== src/Common/Arrays.antt =====
-- Reads after writes and after moves of a pointer, and equality of lists position by position.
use mathlib.Core.Path.{◌≡◌, refl, ap₂}
use mathlib.Core.Bool.{◌&&◌}
use mathlib.Core.List.{List, [], ◌∷◌, ◌++◌}
use Prim.Native.Nat.{ℕ, zero, suc, ◌+◌, ◌-◌, ◌≤◌, ◌<◌}
use native.Mathlib.Omega.{arith}
use tron_wallet_searcher.Common.Tests.{◌==◌, ltb, leb, if◌then◌else◌}
use tron_wallet_searcher.Common.Lists.{length, get_or, set, drop, replicate, for_range, length-set}

module _ {ℓ} {A : Type ℓ} where
  pub get_or-set :
      (xs : List A) (i j : ℕ) (v d : A)
      → i < length xs
      → get_or (set xs i v) j d ≡ (if i == j then v else get_or xs j d)
  get_or-set [] i j v d h = absurd (omega arith)
  get_or-set (x ∷ xs) zero zero v d h = refl
  get_or-set (x ∷ xs) zero (suc j) v d h = ground arith
  get_or-set (x ∷ xs) (suc i) zero v d h = ground arith
  get_or-set (x ∷ xs) (suc i) (suc j) v d h = ground (arith, get_or-set xs i j v d (omega arith))

  pub get_or-drop :
      (n : ℕ) (xs : List A) (i : ℕ) (d : A) → get_or (drop n xs) i d ≡ get_or xs (n + i) d
  get_or-drop zero xs i d = ground arith
  get_or-drop (suc n) [] i d = refl
  get_or-drop (suc n) (x ∷ xs) i d = ground (arith, get_or-drop n xs i d)

  pub get_or-replicate : (n i : ℕ) (a : A) → get_or (replicate n a) i a ≡ a
  get_or-replicate zero i a = refl
  get_or-replicate (suc n) zero a = refl
  get_or-replicate (suc n) (suc i) a = get_or-replicate n i a

  pub get_or-past : (xs : List A) (i : ℕ) (d : A) → length xs ≤ i → get_or xs i d ≡ d
  get_or-past [] i d h = refl
  get_or-past (x ∷ xs) zero d h = absurd (omega arith)
  get_or-past (x ∷ xs) (suc i) d h = get_or-past xs i d (omega arith)

  pub get_or-append :
      (xs ys : List A) (i : ℕ) (d : A)
      → get_or (xs ++ ys) i d
        ≡ (if ltb i (length xs) then get_or xs i d else get_or ys (i - length xs) d)
  get_or-append [] ys i d = ground arith
  get_or-append (x ∷ xs) ys zero d = ground arith
  get_or-append (x ∷ xs) ys (suc i) d = ground (arith, get_or-append xs ys i d)

  -- Two lists of one length with the same elements are one list.
  pub get_or_ext :
      (d : A) (xs ys : List A)
      → length xs ≡ length ys
      → ((i : ℕ) → i < length xs → get_or xs i d ≡ get_or ys i d)
      → xs ≡ ys
  get_or_ext d [] [] e h = refl
  get_or_ext d [] (y ∷ ys) e h = absurd (omega arith)
  get_or_ext d (x ∷ xs) [] e h = absurd (omega arith)
  get_or_ext d (x ∷ xs) (y ∷ ys) e h =
      ap₂ ◌∷◌ (h 0 (omega arith))
        (get_or_ext d xs ys (omega arith) (λ i p. h (suc i) (omega arith)))

-- A loop that sets each of the cells `i`, …, `i + n - 1` once, to a value that does not depend on
-- the array, gives those values.
module _ {ℓ} {A : Type ℓ} (f : ℕ → A) (base : ℕ) where
  pub length-fill :
      (n i : ℕ) (xs : List A)
      → length (for_range n i (λ k ys. set ys (base + k) (f k)) xs) ≡ length xs
  unfolding for_range
  length-fill zero i xs = refl
  length-fill (suc n) i xs =
      omega (arith, length-fill n (i + 1) (set xs (base + i) (f i)), length-set xs (base + i) (f i))

module _ {A : Type 0} (f : ℕ → A) (base : ℕ) where
  -- Each cell that the loop reaches holds its value, and every other cell what it held.
  pub get_or-fill :
      (n i : ℕ) (xs : List A) (j : ℕ) (d : A)
      → base + i + n ≤ length xs
      → get_or (for_range n i (λ k ys. set ys (base + k) (f k)) xs) j d
        ≡ (if leb (base + i) j && ltb j (base + i + n) then f (j - base) else get_or xs j d)
  unfolding for_range
  get_or-fill zero i xs j d h = ground arith
  get_or-fill (suc n) i xs j d h = ground (
    arith,
    get_or-fill n (i + 1) (set xs (base + i) (f i)) j d,
    length-set xs (base + i) (f i),
    get_or-set xs (base + i) j (f i) d,
  )

-- The same for a loop that sets cell `k` in round `k`.
module _ {A : Type 0} (f : ℕ → A) where
  pub length-fill_all :
      (n i : ℕ) (xs : List A) → length (for_range n i (λ k ys. set ys k (f k)) xs) ≡ length xs
  unfolding for_range
  length-fill_all zero i xs = refl
  length-fill_all (suc n) i xs =
      omega (arith, length-fill_all n (i + 1) (set xs i (f i)), length-set xs i (f i))

  pub get_or-fill_all :
      (n i : ℕ) (xs : List A) (j : ℕ) (d : A)
      → i + n ≤ length xs
      → get_or (for_range n i (λ k ys. set ys k (f k)) xs) j d
        ≡ (if leb i j && ltb j (i + n) then f j else get_or xs j d)
  unfolding for_range
  get_or-fill_all zero i xs j d h = ground arith
  get_or-fill_all (suc n) i xs j d h = ground (
    arith,
    get_or-fill_all n (i + 1) (set xs i (f i)) j d,
    length-set xs i (f i),
    get_or-set xs i j (f i) d,
  )
