-- ===== src/Keccak/Device.antt =====
-- `device_keccak_256_64` of native/src/cuda_runtime.cu against `keccak_256` of native/src/tron.cpp.
use tron_wallet_searcher.Common.{
  ℕ, zero, suc, ◌+◌, ◌*◌, ◌^◌, ◌≤◌, ◌<◌, ◌≡◌, refl, sym, ap, ◌∙◌, List, bit_xor, ◌==◌, ltb,
  if◌then◌else◌, get_or, set, drop, replicate, length, length-set, for_range, arith,
}
use tron_wallet_searcher.Common.Words.{zero-bit_xor, IsByte}
use tron_wallet_searcher.Common.Arrays.{
  get_or-set, get_or-drop, get_or-fill_all, length-fill_all, get_or-replicate,
}
use tron_wallet_searcher.Keccak.{
  load_little_endian, empty_block, absorb, absorb_block, final_block, keccak_permute, squeeze,
  keccak_256, device_keccak_256_64, device_keccak_permute, keccak_rounds, device_keccak_round,
  keccak_round, device_keccak_round_constants, column_parities, column_deltas, apply_deltas,
  move_lanes, mix_rows, device_rotate_left, rotate_left, complement, device_load_little_endian,
  device_store_little_endian, store_little_endian,
}
use tron_wallet_searcher.Keccak.Lanes.{byte_at, load-value, load-cong}

padded : List ℕ → List ℕ → List ℕ
padded bytes blank =
    let block =
      for_range (length bytes) 0 (λ index out. set out index (get_or bytes index 0)) blank in
    let separated = set block (length bytes) (bit_xor (get_or block (length bytes) 0) 0x01) in
    set separated 135 (bit_xor (get_or separated 135 0) 0x80)

-- The lanes of a padded block of a message of at most 134 bytes.
final_byte : List ℕ → ℕ → ℕ
final_byte bytes i =
    if ltb i (length bytes)
    then byte_at bytes i
    else if i == length bytes
    then 0x01
    else if i == 135
    then 0x80
    else 0

-- The padding over a blank block: the data, 0x01, zeros and 0x80.
byte_at-padded :
    (bytes blank : List ℕ) (i : ℕ)
    → length bytes < 135
    → length blank ≡ 136
    → ((j : ℕ) → byte_at blank j ≡ 0)
    → byte_at (padded bytes blank) i ≡ final_byte bytes i
unfolding final_byte padded
byte_at-padded bytes blank i h e zero_at =
    let filled =
      for_range (length bytes) 0 (λ index out. set out index (get_or bytes index 0)) blank in
    let fill =
      λ (j : ℕ). get_or-fill_all (λ index. get_or bytes index 0) (length bytes) 0 blank j 0 in
    let same = length-fill_all (λ index. get_or bytes index 0) (length bytes) 0 blank in
    let separated = set filled (length bytes) (bit_xor (byte_at filled (length bytes)) 0x01) in
    ground (
      arith,
      same,
      fill i,
      fill 135,
      fill (length bytes),
      zero_at i,
      zero_at 135,
      zero_at (length bytes),
      length-set filled (length bytes) (bit_xor (byte_at filled (length bytes)) 0x01),
      get_or-set filled (length bytes) i (bit_xor (byte_at filled (length bytes)) 0x01) 0,
      get_or-set filled (length bytes) 135 (bit_xor (byte_at filled (length bytes)) 0x01) 0,
      get_or-set separated 135 i (bit_xor (byte_at separated 135) 0x80) 0,
      zero-bit_xor 0x01,
      zero-bit_xor 0x80,
    )

byte_at-final_block :
    (bytes : List ℕ) (i : ℕ)
    → length bytes < 135
    → byte_at (final_block bytes) i ≡ final_byte bytes i
unfolding final_block padded
byte_at-final_block bytes i h =
    byte_at-padded bytes empty_block i h (unfold empty_block in refl)
      (λ j. unfold empty_block in get_or-replicate 136 j 0)

absorb-short :
    (bytes state : List ℕ) (fuel : ℕ)
    → length bytes < 136
    → absorb fuel bytes state ≡ (bytes, state)
unfolding absorb
absorb-short bytes state zero h = refl
absorb-short bytes state (suc fuel) h = ground arith

-- The padding after 64 bytes of data.
abbrev pad : ℕ → ℕ
pad i = if i == 64 then 0x01 else if i == 135 then 0x80 else 0

module _ (input : List ℕ) (size : length input ≡ 64) where
  final_at : (k j : ℕ) → byte_at (drop k (final_block input)) j ≡ final_byte input (k + j)
  final_at k j =
      ground (arith, get_or-drop k (final_block input) j 0, byte_at-final_block input (k + j))

  message_lane :
      (k : ℕ)
      → k + 8 ≤ 64
      → load_little_endian (drop k (final_block input)) ≡ load_little_endian (drop k input)
  unfolding final_byte
  message_lane k h = load-cong _ _ (λ j p. ground (arith, final_at k j, get_or-drop k input j 0))

  pad_at : (k j : ℕ) → 64 ≤ k → byte_at (drop k (final_block input)) j ≡ pad (k + j)
  unfolding final_byte
  pad_at k j h = ground (arith, final_at k j)

  pad_lane :
      (k : ℕ)
      → 64 ≤ k
      → load_little_endian (drop k (final_block input))
        ≡ pad (k + 0)
          + pad (k + 1) * 2 ^ 8
          + pad (k + 2) * 2 ^ 16
          + pad (k + 3) * 2 ^ 24
          + pad (k + 4) * 2 ^ 32
          + pad (k + 5) * 2 ^ 40
          + pad (k + 6) * 2 ^ 48
          + pad (k + 7) * 2 ^ 56
  pad_lane k h =
      let at : (j : ℕ) → byte_at (drop k (final_block input)) j ≡ pad (k + j) = λ j. pad_at k j h in
      load-value _ (λ j p. rw (at j) (pad-IsByte (k + j)))
      ∙ (rw (at 0, at 1, at 2, at 3, at 4, at 5, at 6, at 7))
    where
      pad-IsByte : (i : ℕ) → IsByte (pad i)
      pad-IsByte i = ground arith

  device_lanes :
      absorb_block (final_block input) (replicate 25 0)
      ≡ set
          (set
            (for_range 8 0
              (λ index s. set s index (load_little_endian (drop (index * 8) input)))
              (replicate 25 0))
            8
            0x01)
          16
          0x8000000000000000
  unfolding absorb_block for_range
  device_lanes = simp zero-bit_xor (
      cc (
        message_lane 0 (omega arith),
        message_lane 8 (omega arith),
        message_lane 16 (omega arith),
        message_lane 24 (omega arith),
        message_lane 32 (omega arith),
        message_lane 40 (omega arith),
        message_lane 48 (omega arith),
        message_lane 56 (omega arith),
        pad_lane 64 (omega arith),
        pad_lane 72 (omega arith),
        pad_lane 80 (omega arith),
        pad_lane 88 (omega arith),
        pad_lane 96 (omega arith),
        pad_lane 104 (omega arith),
        pad_lane 112 (omega arith),
        pad_lane 120 (omega arith),
        pad_lane 128 (omega arith),
      ))

device_keccak_round-eq :
    (round : ℕ) (state : List ℕ)
    → device_keccak_round round state
      ≡ keccak_round state (get_or device_keccak_round_constants round 0)
unfolding device_keccak_round keccak_round column_parities column_deltas apply_deltas move_lanes
    mix_rows device_rotate_left rotate_left complement
device_keccak_round-eq round state = refl

-- Loops with equal rounds.
for_range-cong :
    {S : Type 0} (f g : ℕ → S → S)
    → ((k : ℕ) (s : S) → f k s ≡ g k s)
    → (rounds from : ℕ) (s : S) → for_range rounds from f s ≡ for_range rounds from g s
unfolding for_range
for_range-cong f g same zero from s = refl
for_range-cong f g same (suc rounds) from s =
    ap (for_range rounds (from + 1) f) (same from s)
    ∙ for_range-cong f g same rounds (from + 1) (g from s)

counted_rounds :
    (state : List ℕ)
    → for_range 24 0
        (λ round s. keccak_round s (get_or device_keccak_round_constants round 0))
        state
      ≡ keccak_permute state
unfolding keccak_permute keccak_rounds for_range
counted_rounds state = refl

device_keccak_permute-eq : (state : List ℕ) → device_keccak_permute state ≡ keccak_permute state
unfolding device_keccak_permute
device_keccak_permute-eq state =
    for_range-cong device_keccak_round
      (λ round s. keccak_round s (get_or device_keccak_round_constants round 0))
      device_keccak_round-eq 24 0 state
    ∙ counted_rounds state

-- The device's byte readers are the reference's.
device_form :
    (input : List ℕ)
    → device_keccak_256_64 input
      ≡ squeeze (
          device_keccak_permute (
            set
              (set
                (for_range 8 0
                  (λ index s. set s index (load_little_endian (drop (index * 8) input)))
                  (replicate 25 0))
                8
                0x01)
              16
              0x8000000000000000))
unfolding device_keccak_256_64 squeeze device_load_little_endian load_little_endian
    device_store_little_endian store_little_endian
device_form input = refl

-- For a 64-byte public key the device code computes the digest of the reference.
pub device_keccak_256_64-eq-keccak_256 :
    (input : List ℕ) → length input ≡ 64 → device_keccak_256_64 input ≡ keccak_256 input
unfolding keccak_256
device_keccak_256_64-eq-keccak_256 input size =
    device_form input
    ∙ rw
        (device_keccak_permute-eq, absorb-short input (replicate 25 0) (length input) (omega arith))
        (ap (λ s. squeeze (keccak_permute s)) (sym (device_lanes input size)))
