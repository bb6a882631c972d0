-- ===== src/Kernels.antt =====
-- What the device does with a public key: SHA-256 of one block, the address, and the evaluation of a
-- candidate, of native/src/cuda_runtime.cu. `atomicMin` on the winning index is a message: a
-- function that may reach it returns the indices that it hands over, in order.
pub mod Grid
pub mod Candidate
pub mod Step
pub mod Transparent
pub mod Rounds
pub mod Schedule
pub mod Sha256
mod Tests
use tron_wallet_searcher.Common.{
  ℕ, zero, suc, ◌+◌, ◌-◌, ◌*◌, ◌/◌, ◌%◌, ◌^◌, List, [], ◌∷◌, ◌++◌, Bool, true, false, not, leb,
  if◌then◌else◌, length, get_or, set, take, drop, replicate, bit_and, bit_or, bit_xor, for_range,
}
use tron_wallet_searcher.Common.Words.{u8, u32}
use tron_wallet_searcher.Keccak.{device_keccak_256_64}
use tron_wallet_searcher.Base58.{device_base58_25}
use tron_wallet_searcher.Pattern.{device_pattern_matches}
use tron_wallet_searcher.PrefixFilter.{device_payload_may_match_prefix}
use tron_wallet_searcher.Chain.Curve as Wide
use tron_wallet_searcher.Chain.Curve.{Point}
use tron_wallet_searcher.Secp.Curve as Legacy
use tron_wallet_searcher.Secp.Curve.{AffinePoint}

unfoldable pub device_sha256_constants : List ℕ
device_sha256_constants =
    0x428a2f98 ∷ 0x71374491 ∷ 0xb5c0fbcf ∷ 0xe9b5dba5 ∷ 0x3956c25b ∷ 0x59f111f1 ∷ 0x923f82a4
    ∷ 0xab1c5ed5 ∷ 0xd807aa98 ∷ 0x12835b01 ∷ 0x243185be ∷ 0x550c7dc3 ∷ 0x72be5d74 ∷ 0x80deb1fe
    ∷ 0x9bdc06a7 ∷ 0xc19bf174 ∷ 0xe49b69c1 ∷ 0xefbe4786 ∷ 0x0fc19dc6 ∷ 0x240ca1cc ∷ 0x2de92c6f
    ∷ 0x4a7484aa ∷ 0x5cb0a9dc ∷ 0x76f988da ∷ 0x983e5152 ∷ 0xa831c66d ∷ 0xb00327c8 ∷ 0xbf597fc7
    ∷ 0xc6e00bf3 ∷ 0xd5a79147 ∷ 0x06ca6351 ∷ 0x14292967 ∷ 0x27b70a85 ∷ 0x2e1b2138 ∷ 0x4d2c6dfc
    ∷ 0x53380d13 ∷ 0x650a7354 ∷ 0x766a0abb ∷ 0x81c2c92e ∷ 0x92722c85 ∷ 0xa2bfe8a1 ∷ 0xa81a664b
    ∷ 0xc24b8b70 ∷ 0xc76c51a3 ∷ 0xd192e819 ∷ 0xd6990624 ∷ 0xf40e3585 ∷ 0x106aa070 ∷ 0x19a4c116
    ∷ 0x1e376c08 ∷ 0x2748774c ∷ 0x34b0bcb5 ∷ 0x391c0cb3 ∷ 0x4ed8aa4a ∷ 0x5b9cca4f ∷ 0x682e6ff3
    ∷ 0x748f82ee ∷ 0x78a5636f ∷ 0x84c87814 ∷ 0x8cc70208 ∷ 0x90befffa ∷ 0xa4506ceb ∷ 0xbef9a3f7
    ∷ 0xc67178f2 ∷ []

unfoldable pub device_rotate_right : ℕ → ℕ → ℕ
device_rotate_right value amount = bit_or (value / 2 ^ amount) (u32 (value * 2 ^ (32 - amount)))

-- The working variables of the rounds, and the rolling schedule.
pub record Working : Type 0 where
  pub a : ℕ
  pub b : ℕ
  pub c : ℕ
  pub d : ℕ
  pub e : ℕ
  pub f : ℕ
  pub g : ℕ
  pub h : ℕ
  pub schedule : List ℕ

-- The message, the bit behind it, and its size in bits.
unfoldable pub sha256_schedule : List ℕ → List ℕ
sha256_schedule input =
    let input_size = length input in
    let or_at = λ (schedule : List ℕ) (place : ℕ) (word : ℕ).
      set schedule place (bit_or (get_or schedule place 0) word) in
    let loaded =
      for_range input_size 0
        (λ index schedule.
          or_at schedule (index / 4) (u32 (get_or input index 0 * 2 ^ (24 - index % 4 * 8))))
        (replicate 16 0) in
    let marked = or_at loaded (input_size / 4) (0x80 * 2 ^ (24 - input_size % 4 * 8)) in
    let bit_size = input_size * 8 in set (set marked 14 (u32 (bit_size / 2 ^ 32))) 15 (u32 bit_size)

-- The word of a later round, put in the place of the word 16 rounds before.
unfoldable pub extend_schedule : ℕ → List ℕ → List ℕ
extend_schedule index schedule =
    let previous_15 = get_or schedule ((index - 15) % 16) 0 in
    let previous_2 = get_or schedule ((index - 2) % 16) 0 in
    let sigma_zero =
      bit_xor (bit_xor (device_rotate_right previous_15 7) (device_rotate_right previous_15 18))
        (previous_15 / 2 ^ 3) in
    let sigma_one =
      bit_xor (bit_xor (device_rotate_right previous_2 17) (device_rotate_right previous_2 19))
        (previous_2 / 2 ^ 10) in
    set schedule (index % 16) (
      u32 (
        get_or schedule (index % 16) 0
        + (sigma_zero + get_or schedule ((index - 7) % 16) 0 + sigma_one)))

unfoldable pub sha256_round : ℕ → Working → Working
sha256_round index w =
    let schedule = if leb 16 index then extend_schedule index w.schedule else w.schedule in
    let sum_one =
      bit_xor (bit_xor (device_rotate_right w.e 6) (device_rotate_right w.e 11))
        (device_rotate_right w.e 25) in
    let choice = bit_xor (bit_and w.e w.f) (bit_and (2 ^ 32 - 1 - w.e) w.g) in
    let temporary_one = u32 (
      w.h
      + sum_one
      + choice
      + get_or device_sha256_constants index 0
      + get_or schedule (index % 16) 0) in
    let sum_zero =
      bit_xor (bit_xor (device_rotate_right w.a 2) (device_rotate_right w.a 13))
        (device_rotate_right w.a 22) in
    let majority = bit_xor (bit_xor (bit_and w.a w.b) (bit_and w.a w.c)) (bit_and w.b w.c) in
    let temporary_two = u32 (sum_zero + majority) in
    record {
      a = u32 (temporary_one + temporary_two);
      b = w.a;
      c = w.b;
      d = w.c;
      e = u32 (w.d + temporary_one);
      f = w.e;
      g = w.f;
      h = w.g;
      schedule = schedule;
    }

abbrev pub initial_working : List ℕ → Working
initial_working schedule = record {
  a = 0x6a09e667;
  b = 0xbb67ae85;
  c = 0x3c6ef372;
  d = 0xa54ff53a;
  e = 0x510e527f;
  f = 0x9b05688c;
  g = 0x1f83d9ab;
  h = 0x5be0cd19;
  schedule = schedule;
}

-- The four bytes of a word, behind those that follow it.
abbrev pub word_bytes : ℕ → List ℕ → List ℕ
word_bytes word rest = u8 (word / 2 ^ 24) ∷ u8 (word / 2 ^ 16) ∷ u8 (word / 2 ^ 8) ∷ u8 word ∷ rest

unfoldable pub sha256_digest : Working → List ℕ
sha256_digest w = word_bytes (u32 (w.a + 0x6a09e667)) (
    word_bytes (u32 (w.b + 0xbb67ae85)) (
      word_bytes (u32 (w.c + 0x3c6ef372)) (
        word_bytes (u32 (w.d + 0xa54ff53a)) (
          word_bytes (u32 (w.e + 0x510e527f)) (
            word_bytes (u32 (w.f + 0x9b05688c))
              (word_bytes (u32 (w.g + 0x1f83d9ab)) (word_bytes (u32 (w.h + 0x5be0cd19)) [])))))))

-- The size of the input is that of the list.
unfoldable pub device_sha256_single_block : List ℕ → List ℕ
device_sha256_single_block input =
    sha256_digest (for_range 64 0 sha256_round (initial_working (sha256_schedule input)))

unfoldable pub device_tron_payload_from_public_key : List ℕ → List ℕ
device_tron_payload_from_public_key public_key =
    0x41 ∷ take 20 (drop 12 (device_keccak_256_64 public_key))

unfoldable pub device_tron_address_from_payload : List ℕ → List ℕ
device_tron_address_from_payload payload_input =
    let payload = take 21 payload_input in
    let first_hash = device_sha256_single_block payload in
    let second_hash = device_sha256_single_block first_hash in
    device_base58_25 (payload ++ take 4 second_hash)

unfoldable pub device_tron_address_from_public_key : List ℕ → List ℕ
device_tron_address_from_public_key public_key =
    device_tron_address_from_payload (device_tron_payload_from_public_key public_key)

-- The kernel that the self-test starts: the same steps, in the one thread that works.
unfoldable pub tron_address_pipeline_kernel : List ℕ → List ℕ
tron_address_pipeline_kernel public_key =
    let keccak_digest = device_keccak_256_64 public_key in
    let payload = 0x41 ∷ take 20 (drop 12 keccak_digest) in
    let first_hash = device_sha256_single_block payload in
    let second_hash = device_sha256_single_block first_hash in
    device_base58_25 (payload ++ take 4 second_hash)

-- The lengths of the pattern's arrays are those of its lists, and `rows` is the table of the prefix.
pub record DevicePattern : Type 0 where
  pub prefix : List ℕ
  pub suffix : List ℕ
  pub rows : List (List ℕ × List ℕ)

-- The lines that the two evaluations share, from the public key on.
unfoldable pub evaluate_public_key : List ℕ → ℕ → DevicePattern → List ℕ
evaluate_public_key public_key relative_index pattern =
    let payload = device_tron_payload_from_public_key public_key in
    if not (device_payload_may_match_prefix payload pattern.rows)
    then []
    else (let address = device_tron_address_from_payload payload in
        if device_pattern_matches address pattern.prefix pattern.suffix
        then relative_index ∷ []
        else [])

unfoldable pub evaluate_search_candidate : AffinePoint → ℕ → DevicePattern → List ℕ
evaluate_search_candidate candidate relative_index pattern =
    if candidate.infinity
    then []
    else evaluate_public_key (Legacy.point_to_public_key candidate) relative_index pattern

unfoldable pub evaluate_chain_candidate : Point → ℕ → DevicePattern → List ℕ
evaluate_chain_candidate candidate relative_index pattern =
    if candidate.infinity
    then []
    else evaluate_public_key (Wide.point_to_public_key candidate) relative_index pattern
