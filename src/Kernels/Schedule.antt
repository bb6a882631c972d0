-- ===== src/Kernels/Schedule.antt =====
-- The schedule of 64 words of FIPS 180-4, and the 16 words of it that `device_sha256_single_block`
-- of native/src/cuda_runtime.cu keeps.
use tron_wallet_searcher.Common.{
  ℕ, zero, suc, ◌+◌, ◌-◌, ◌*◌, ◌/◌, ◌%◌, ◌^◌, ◌≤◌, ◌<◌, ◌≡◌, refl, sym, ap, ◌∙◌, List, length,
  length-set, get_or, set, bit_or, bit_xor, if◌then◌else◌, ◌==◌, ==_iff, leb, true, false,
  Bool-cases, inl, inr, arith, subst,
}
use tron_wallet_searcher.Common.Arrays.{get_or-set}
use tron_wallet_searcher.Common.Words.{u32}
use tron_wallet_searcher.Kernels.{extend_schedule, device_rotate_right}

-- ROTR and the functions of the standard, on 32-bit words.
unfoldable pub rotr : ℕ → ℕ → ℕ
rotr n x = bit_or (x / 2 ^ n) (u32 (x * 2 ^ (32 - n)))

unfoldable pub small_sigma_zero : ℕ → ℕ
small_sigma_zero x = bit_xor (bit_xor (rotr 7 x) (rotr 18 x)) (x / 2 ^ 3)

unfoldable pub small_sigma_one : ℕ → ℕ
small_sigma_one x = bit_xor (bit_xor (rotr 17 x) (rotr 19 x)) (x / 2 ^ 10)

-- The words of the schedule, the first 16 and `k` more.
unfoldable pub scheduled : ℕ → (ℕ → ℕ) → ℕ → ℕ
scheduled zero m t = m t
scheduled (suc k) m t =
    let w = scheduled k m in
    if t == 16 + k
    then u32 (small_sigma_one (w (14 + k)) + w (9 + k) + small_sigma_zero (w (1 + k)) + w k)
    else w t

-- More words leave those that are there.
pub scheduled-stays :
    (d k : ℕ) (m : ℕ → ℕ) (t : ℕ) → t < 16 + k → scheduled (d + k) m t ≡ scheduled k m t
unfolding scheduled
scheduled-stays zero k m t lt = ap (λ n. scheduled n m t) (omega arith)
scheduled-stays (suc d) k m t lt =
    let e : suc d + k ≡ suc (d + k) = omega arith in
    let other : (t == 16 + (d + k)) ≡ false = ground arith in
    rw (e, other) (scheduled-stays d k m t lt)

-- The schedule of the standard.
abbrev pub word_of : (ℕ → ℕ) → ℕ → ℕ
word_of m = scheduled 48 m

word_of-next :
    (m : ℕ → ℕ) (k : ℕ)
    → k < 48
    → word_of m (16 + k)
      ≡ u32 (
          small_sigma_one (word_of m (14 + k))
          + word_of m (9 + k)
          + small_sigma_zero (word_of m (1 + k))
          + word_of m k)
word_of-next m k lt =
    let upto : 48 ≡ 48 - k + k = omega arith in
    let past : 48 ≡ 48 - suc k + suc k = omega arith in
    let old : (t : ℕ) → t < 16 + k → word_of m t ≡ scheduled k m t =
      λ t below. ap (λ n. scheduled n m t) upto ∙ scheduled-stays (48 - k) k m t below in
    let here : (16 + k == 16 + k) ≡ true = ground arith in
    let now : scheduled (suc k) m (16 + k)
        ≡ u32 (
            small_sigma_one (scheduled k m (14 + k))
            + scheduled k m (9 + k)
            + small_sigma_zero (scheduled k m (1 + k))
            + scheduled k m k) =
      unfold scheduled in rw here refl in
    ap (λ n. scheduled n m (16 + k)) past
    ∙ scheduled-stays (48 - suc k) (suc k) m (16 + k) (omega arith)
    ∙ now
    ∙ rw
        (
          old (14 + k) (omega arith),
          old (9 + k) (omega arith),
          old (1 + k) (omega arith),
          old k (omega arith),
        )
        refl

-- The words that are kept at a round: the last 16, each in the place of its number modulo 16.
abbrev pub reached : ℕ → ℕ
reached i = if leb 16 i then i else 16

abbrev pub Keeps : (ℕ → ℕ) → ℕ → List ℕ → Type 0
Keeps m i ring =
    (length ring ≡ 16)
    × ((t : ℕ) → t < reached i → reached i ≤ t + 16 → get_or ring (t % 16) 0 ≡ word_of m t)

abbrev pub advance : ℕ → List ℕ → List ℕ
advance i ring = if leb 16 i then extend_schedule i ring else ring

-- The new word is the standard's.
extended_word :
    (m : ℕ → ℕ) (k : ℕ) (ring : List ℕ)
    → k < 48
    → Keeps m (16 + k) ring
    → extend_schedule (16 + k) ring ≡ set ring (k % 16) (word_of m (16 + k))
unfolding extend_schedule small_sigma_zero small_sigma_one rotr device_rotate_right
extended_word m k ring lt keeps =
    let late : leb 16 (16 + k) ≡ true = ground arith in
    let all : (t : ℕ) → t < 16 + k → 16 + k ≤ t + 16 → get_or ring (t % 16) 0 ≡ word_of m t =
      rw late at keeps.1 in
    let place : (16 + k) % 16 ≡ k % 16 = omega arith in
    let p15 : 16 + k - 15 ≡ 1 + k = omega arith in
    let p2 : 16 + k - 2 ≡ 14 + k = omega arith in
    let p7 : 16 + k - 7 ≡ 9 + k = omega arith in
    rw
      (
        place,
        p15,
        p2,
        p7,
        all k (omega arith) (omega arith),
        all (1 + k) (omega arith) (omega arith),
        all (9 + k) (omega arith) (omega arith),
        all (14 + k) (omega arith) (omega arith),
        word_of-next m k lt,
      )
      (ap (λ (v : ℕ). set ring (k % 16) v) (ap u32 (omega arith)))

-- A round finds its word in its place, and keeps the last 16.
pub advance-Keeps :
    (m : ℕ → ℕ) (i : ℕ) (ring : List ℕ)
    → i < 64
    → Keeps m i ring
    → Keeps m (i + 1) (advance i ring) × (get_or (advance i ring) (i % 16) 0 ≡ word_of m i)
advance-Keeps m i ring lt keeps = elim (Bool-cases (leb 16 i)) [
  | inr early ↦
      let from : reached i ≡ 16 = rw early refl in
      let to : reached (i + 1) ≡ 16 = ground arith in
      rw (early, to)
        (
          (keeps.0, λ t below above. keeps.1 t (omega (arith, from)) (omega (arith, from))),
          keeps.1 i (ground (arith, from, early)) (ground (arith, from, early)),
        )
  | inl late ↦
      let whole : 16 + (i - 16) ≡ i = ground (arith, late) in
      let to : reached (i + 1) ≡ i + 1 = ground (arith, late) in
      let from : reached i ≡ i = rw late refl in
      let v = word_of m i in
      let place : (i - 16) % 16 ≡ i % 16 = ground (arith, late) in
      let added : extend_schedule i ring ≡ set ring (i % 16) v =
        subst (λ (n : ℕ). extend_schedule n ring ≡ set ring ((i - 16) % 16) (word_of m n)) whole
          (extended_word m (i - 16) ring (ground (arith, late))
            (subst (λ n. Keeps m n ring) (sym whole) keeps))
        ∙ ap (λ (n : ℕ). set ring n v) place in
      let room : i % 16 < length ring = omega (arith, keeps.0) in
      rw (late, to, added)
        (
          (
            length-set ring (i % 16) v ∙ keeps.0,
            λ t below above.
                get_or-set ring (i % 16) (t % 16) v 0 room ∙ elim (Bool-cases (t == i)) [
                  | inl last ↦
                      let e : t ≡ i = (==_iff t i).0 last in
                      let same : (i % 16 == t % 16) ≡ true = ground (arith, e) in
                      rw same (ap (word_of m) (sym e))
                  | inr older ↦
                      let other : (i % 16 == t % 16) ≡ false =
                        ground (arith, older, below, above) in
                      rw other (
                        keeps.1 t (ground (arith, from, older, below))
                          (ground (arith, from, above)))
                ],
          ),
          get_or-set ring (i % 16) (i % 16) v 0 room
              ∙ (let same : (i % 16 == i % 16) ≡ true = ground arith in rw same refl),
        )
]
