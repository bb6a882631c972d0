-- ===== src/PrefixFilter/Compare.antt =====
-- Lexicographic comparison of bytes, and the two forms of the prefilter's test.
use Prim.Native.Nat.{Ordering}
use tron_wallet_searcher.Common.{
  ℕ, zero, suc, ◌+◌, ◌*◌, ◌^◌, ◌≤◌, ◌<◌, ◌≡◌, refl, sym, ap, ap₂, List, [], ◌∷◌, true, ltb,
  if◌then◌else◌, length, get_or, take, drop, All, arith,
}
use tron_wallet_searcher.Common.Words.{IsByte}
use tron_wallet_searcher.Base58.Value.{be_value-lt}
use tron_wallet_searcher.PrefixFilter.{
  device_compare_payload, at_least, at_most, device_payload_may_match_prefix, update_comparison,
  host_compare_row, host_payload_may_match_prefix, payload_size,
}
use tron_wallet_searcher.PrefixFilter.Integer.{number, number-cons}

number_pair :
    (x y : ℕ) (xs ys : List ℕ)
    → length xs ≡ length ys
    → number (x ∷ xs) ≤ number (y ∷ ys)
    → x * 256 ^ length ys + number xs ≤ y * 256 ^ length ys + number ys
number_pair x y xs ys size h =
    let weight : 256 ^ length xs ≡ 256 ^ length ys = ap (λ (m : ℕ). 256 ^ m) size in
    omega (arith, rw weight at (number-cons x xs), number-cons y ys, h)

head_le : (x y p a b : ℕ) → b < p → x * p + a ≤ y * p + b → x ≤ y
head_le zero y p a b hb h = omega arith
head_le (suc x) zero p a b hb h = absurd (grind arith)
head_le (suc x) (suc y) p a b hb h = let rest = head_le x y p a b hb (omega arith) in omega arith

-- The first bytes of the smaller number are not above those of the larger one.
pub compare-le :
    (n : ℕ) (xs ys : List ℕ)
    → All IsByte xs
    → All IsByte ys
    → length xs ≡ length ys
    → number xs ≤ number ys
    → (at_most (device_compare_payload (take n xs) (take n ys)) ≡ true)
      × (at_least (device_compare_payload (take n ys) (take n xs)) ≡ true)
unfolding device_compare_payload
compare-le zero xs ys h k e le = (refl, refl)
compare-le (suc n) [] [] h k e le = (refl, refl)
compare-le (suc n) [] (y ∷ ys) h k e le = absurd (omega arith)
compare-le (suc n) (x ∷ xs) [] h k e le = absurd (omega arith)
compare-le (suc n) (x ∷ xs) (y ∷ ys) h k e le =
    let size : length xs ≡ length ys = omega arith in
    let pair = number_pair x y xs ys size le in
    let heads =
      head_le x y (256 ^ length ys) (number xs) (number ys) (be_value-lt 256 ys k.1) pair in
    ground (arith, compare-le n xs ys h.1 k.1 size, ap (λ (t : ℕ). t * 256 ^ length ys))

-- A comparison that goes on from the state that it has.
unfoldable resume : Ordering → Ordering → Ordering
resume Ordering.lt o = Ordering.lt
resume Ordering.gt o = Ordering.gt
resume Ordering.eq o = o

resume-update_comparison :
    (state o : Ordering) (x y : ℕ)
    → resume (update_comparison state x y) o
      ≡ resume state (if ltb x y then Ordering.lt else if ltb y x then Ordering.gt else o)
unfolding update_comparison resume
resume-update_comparison Ordering.lt o x y = refl
resume-update_comparison Ordering.gt o x y = refl
resume-update_comparison Ordering.eq o x y = ground arith

resume-eq : (o : Ordering) → resume o Ordering.eq ≡ o
unfolding resume
resume-eq Ordering.lt = refl
resume-eq Ordering.eq = refl
resume-eq Ordering.gt = refl

take-drop-suc :
    (n i : ℕ) (xs : List ℕ)
    → i < length xs
    → take (suc n) (drop i xs) ≡ get_or xs i 0 ∷ take n (drop (suc i) xs)
take-drop-suc n i [] h = absurd (omega arith)
take-drop-suc n zero (x ∷ xs) h = refl
take-drop-suc n (suc i) (x ∷ xs) h = take-drop-suc n i xs (omega arith)

host_compare_row-resume :
    (n i : ℕ) (encoded minimum maximum : List ℕ) (low high : Ordering)
    → i + n ≤ length encoded
    → i + n ≤ length minimum
    → i + n ≤ length maximum
    → host_compare_row n i encoded minimum maximum low high ≡ (
      resume low (device_compare_payload (take n (drop i encoded)) (take n (drop i minimum))),
      resume high (device_compare_payload (take n (drop i encoded)) (take n (drop i maximum))),
    )
unfolding host_compare_row device_compare_payload resume
host_compare_row-resume zero i encoded minimum maximum low high he hm hx =
    ap₂ (λ (a b : Ordering). (a, b)) (sym (resume-eq low)) (sym (resume-eq high))
host_compare_row-resume (suc n) i encoded minimum maximum low high he hm hx =
    let e : i + 1 ≡ suc i = omega arith in
    rw
      (
        take-drop-suc n i encoded (omega arith),
        take-drop-suc n i minimum (omega arith),
        take-drop-suc n i maximum (omega arith),
        e,
        host_compare_row-resume n (suc i) encoded minimum maximum
            (update_comparison low (get_or encoded i 0) (get_or minimum i 0))
            (update_comparison high (get_or encoded i 0) (get_or maximum i 0)) (omega arith)
            (omega arith) (omega arith),
        resume-update_comparison low _ (get_or encoded i 0) (get_or minimum i 0),
        resume-update_comparison high _ (get_or encoded i 0) (get_or maximum i 0),
      )
      refl

-- A row of the table: a pair of payloads.
abbrev pub IsRow : List ℕ × List ℕ → Type 0
IsRow (minimum, maximum) = (length minimum ≡ payload_size) × (length maximum ≡ payload_size)

take-all : (xs : List ℕ) (n : ℕ) → length xs ≡ n → take n xs ≡ xs
take-all [] zero e = refl
take-all [] (suc n) e = refl
take-all (x ∷ xs) zero e = absurd (omega arith)
take-all (x ∷ xs) (suc n) e = ap (◌∷◌ x) (take-all xs n (omega arith))

-- The host's test of a longer buffer is the device's test of its first 21 bytes.
pub host_payload_may_match_prefix-eq-device :
    (encoded : List ℕ) (rows : List (List ℕ × List ℕ))
    → payload_size ≤ length encoded
    → All IsRow rows
    → host_payload_may_match_prefix encoded rows
      ≡ device_payload_may_match_prefix (take payload_size encoded) rows
unfolding host_payload_may_match_prefix device_payload_may_match_prefix
host_payload_may_match_prefix-eq-device encoded [] h k = refl
host_payload_may_match_prefix-eq-device encoded ((minimum, maximum) ∷ rows) h k =
    rw
      (
        host_compare_row-resume payload_size 0 encoded minimum maximum Ordering.eq Ordering.eq
            (omega arith) (omega (arith, k.0.0)) (omega (arith, k.0.1)),
        take-all minimum payload_size k.0.0,
        take-all maximum payload_size k.0.1,
        host_payload_may_match_prefix-eq-device encoded rows h k.1,
      )
      (unfold resume in refl)
