-- ===== src/Kernels/Sha256.antt =====
-- SHA-256 of FIPS 180-4 for one block, and `device_sha256_single_block` of
-- native/src/cuda_runtime.cu.
use tron_wallet_searcher.Common.{
  ◌++◌, ℕ, zero, suc, ◌+◌, ◌-◌, ◌/◌, ◌%◌, ◌^◌, ◌≡◌, refl, sym, ap, ◌∙◌, List, [], ◌∷◌, length,
  length-set, get_or, replicate, bit_and, bit_xor, for_range, for_range-keeps, arith, subst,
}
use tron_wallet_searcher.Common.Words.{u32}
use tron_wallet_searcher.Kernels.{
  Working, device_sha256_single_block, sha256_schedule, sha256_round, sha256_digest,
  initial_working, device_rotate_right, device_sha256_constants,
}
use tron_wallet_searcher.Kernels.Schedule.{
  rotr, scheduled, scheduled-stays, word_of, Keeps, advance, advance-Keeps,
}

-- The constants of the rounds.
unfoldable round_constants : List ℕ
round_constants =
    0x428a2f98 ∷ 0x71374491 ∷ 0xb5c0fbcf ∷ 0xe9b5dba5 ∷ 0x3956c25b ∷ 0x59f111f1 ∷ 0x923f82a4
    ∷ 0xab1c5ed5 ∷ 0xd807aa98 ∷ 0x12835b01 ∷ 0x243185be ∷ 0x550c7dc3 ∷ 0x72be5d74 ∷ 0x80deb1fe
    ∷ 0x9bdc06a7 ∷ 0xc19bf174 ∷ 0xe49b69c1 ∷ 0xefbe4786 ∷ 0x0fc19dc6 ∷ 0x240ca1cc ∷ 0x2de92c6f
    ∷ 0x4a7484aa ∷ 0x5cb0a9dc ∷ 0x76f988da ∷ 0x983e5152 ∷ 0xa831c66d ∷ 0xb00327c8 ∷ 0xbf597fc7
    ∷ 0xc6e00bf3 ∷ 0xd5a79147 ∷ 0x06ca6351 ∷ 0x14292967 ∷ 0x27b70a85 ∷ 0x2e1b2138 ∷ 0x4d2c6dfc
    ∷ 0x53380d13 ∷ 0x650a7354 ∷ 0x766a0abb ∷ 0x81c2c92e ∷ 0x92722c85 ∷ 0xa2bfe8a1 ∷ 0xa81a664b
    ∷ 0xc24b8b70 ∷ 0xc76c51a3 ∷ 0xd192e819 ∷ 0xd6990624 ∷ 0xf40e3585 ∷ 0x106aa070 ∷ 0x19a4c116
    ∷ 0x1e376c08 ∷ 0x2748774c ∷ 0x34b0bcb5 ∷ 0x391c0cb3 ∷ 0x4ed8aa4a ∷ 0x5b9cca4f ∷ 0x682e6ff3
    ∷ 0x748f82ee ∷ 0x78a5636f ∷ 0x84c87814 ∷ 0x8cc70208 ∷ 0x90befffa ∷ 0xa4506ceb ∷ 0xbef9a3f7
    ∷ 0xc67178f2 ∷ []

-- The eight working variables of the standard.
record Hash : Type 0 where
  a : ℕ
  b : ℕ
  c : ℕ
  d : ℕ
  e : ℕ
  f : ℕ
  g : ℕ
  h : ℕ

unfoldable choose : ℕ → ℕ → ℕ → ℕ
choose x y z = bit_xor (bit_and x y) (bit_and (2 ^ 32 - 1 - x) z)

unfoldable majority : ℕ → ℕ → ℕ → ℕ
majority x y z = bit_xor (bit_xor (bit_and x y) (bit_and x z)) (bit_and y z)

unfoldable big_sigma_zero : ℕ → ℕ
big_sigma_zero x = bit_xor (bit_xor (rotr 2 x) (rotr 13 x)) (rotr 22 x)

unfoldable big_sigma_one : ℕ → ℕ
big_sigma_one x = bit_xor (bit_xor (rotr 6 x) (rotr 11 x)) (rotr 25 x)

-- The round of the standard, for its constant and its word.
unfoldable standard_round : ℕ → ℕ → Hash → Hash
standard_round constant word v =
    let temporary_one = u32 (v.h + big_sigma_one v.e + choose v.e v.f v.g + constant + word) in
    let temporary_two = u32 (big_sigma_zero v.a + majority v.a v.b v.c) in
    record {
      a = u32 (temporary_one + temporary_two);
      b = v.a;
      c = v.b;
      d = v.c;
      e = u32 (v.d + temporary_one);
      f = v.e;
      g = v.f;
      h = v.g;
    }

abbrev variables : Working → Hash
variables w = record { a = w.a; b = w.b; c = w.c; d = w.d; e = w.e; f = w.f; g = w.g; h = w.h }

sha256_round-variables :
    (i : ℕ) (w : Working)
    → variables (sha256_round i w)
      ≡ standard_round
          (get_or round_constants i 0)
          (get_or (advance i w.schedule) (i % 16) 0)
          (variables w)
unfolding sha256_round standard_round choose majority big_sigma_zero big_sigma_one rotr
    device_rotate_right device_sha256_constants round_constants
sha256_round-variables i w = refl

sha256_round-schedule : (i : ℕ) (w : Working) → (sha256_round i w).schedule ≡ advance i w.schedule
unfolding sha256_round
sha256_round-schedule i w = refl

-- The loop with 16 words goes through the rounds of the standard.
rounds-standard :
    (m : ℕ → ℕ) (rounds i : ℕ) (w : Working)
    → i + rounds ≡ 64
    → Keeps m i w.schedule
    → variables (for_range rounds i sha256_round w)
      ≡ for_range rounds i
          (λ t. standard_round (get_or round_constants t 0) (word_of m t))
          (variables w)
unfolding for_range
rounds-standard m zero i w whole keeps = refl
rounds-standard m (suc rounds) i w whole keeps =
    let (kept, here) = advance-Keeps m i w.schedule (omega arith) keeps in
    let next : Keeps m (i + 1) (sha256_round i w).schedule =
      subst (Keeps m (i + 1)) (sym (sha256_round-schedule i w)) kept in
    rounds-standard m rounds (i + 1) (sha256_round i w) (omega arith) next
    ∙ ap (for_range rounds (i + 1) (λ t. standard_round (get_or round_constants t 0) (word_of m t)))
        (sha256_round-variables i w
          ∙ ap (λ (x : ℕ). standard_round (get_or round_constants i 0) x (variables w)) here)

unfoldable initial_hash : Hash
initial_hash = record {
  a = 0x6a09e667;
  b = 0xbb67ae85;
  c = 0x3c6ef372;
  d = 0xa54ff53a;
  e = 0x510e527f;
  f = 0x9b05688c;
  g = 0x1f83d9ab;
  h = 0x5be0cd19;
}

-- The four bytes of a word, the most significant first.
unfoldable word_in_bytes : ℕ → List ℕ
word_in_bytes x = x / 2 ^ 24 % 256 ∷ x / 2 ^ 16 % 256 ∷ x / 2 ^ 8 % 256 ∷ x % 256 ∷ []

-- The bytes of the eight sums with the initial values.
unfoldable final_bytes : Hash → List ℕ
final_bytes v =
    word_in_bytes (u32 (v.a + 0x6a09e667))
    ++ word_in_bytes (u32 (v.b + 0xbb67ae85))
    ++ word_in_bytes (u32 (v.c + 0x3c6ef372))
    ++ word_in_bytes (u32 (v.d + 0xa54ff53a))
    ++ word_in_bytes (u32 (v.e + 0x510e527f))
    ++ word_in_bytes (u32 (v.f + 0x9b05688c))
    ++ word_in_bytes (u32 (v.g + 0x1f83d9ab))
    ++ word_in_bytes (u32 (v.h + 0x5be0cd19))

-- SHA-256 of one block of 16 words.
pub standard_hash : (ℕ → ℕ) → List ℕ
standard_hash m =
    final_bytes
      (for_range 64 0 (λ t. standard_round (get_or round_constants t 0) (word_of m t)) initial_hash)

digest-variables : (w : Working) → sha256_digest w ≡ final_bytes (variables w)
unfolding sha256_digest final_bytes word_in_bytes
digest-variables w = refl

sized : (input : List ℕ) → length (sha256_schedule input) ≡ 16
unfolding sha256_schedule
sized input = simp length-set (
    for_range-keeps (λ (s : List ℕ). length s ≡ 16) _ (λ k s e. length-set s _ _ ∙ e) (length input)
      0 (replicate 16 0) refl)

-- The device's loop, which keeps 16 words of the schedule, gives the digest of the standard for the
-- block of its 16 words: the schedule of 64 words, the 64 rounds and the sums at the end.
pub device_sha256_single_block-eq-standard :
    (input : List ℕ)
    → device_sha256_single_block input ≡ standard_hash (λ t. get_or (sha256_schedule input) t 0)
unfolding device_sha256_single_block standard_hash
device_sha256_single_block-eq-standard input =
    let m = λ (t : ℕ). get_or (sha256_schedule input) t 0 in
    let w = initial_working (sha256_schedule input) in
    let start : Keeps m 0 (sha256_schedule input) = (
      sized input,
      λ t below above.
          let place : t % 16 ≡ t = omega (arith, below) in
          ap (λ n. get_or (sha256_schedule input) n 0) place
          ∙ sym (scheduled-stays 48 0 m t (omega (arith, below)) ∙ unfold scheduled in refl),
    ) in
    digest-variables (for_range 64 0 sha256_round w)
    ∙ ap final_bytes (unfold initial_hash in rounds-standard m 64 0 w refl start)
