-- ===== src/Keccak.antt =====
-- Keccak-256 of native/src/tron.cpp (the reference) and its copy for a 64-byte input in
-- native/src/cuda_runtime.cu (the device code). A 64-bit lane is a number below 2 ^ 64, an array is
-- the list of its elements.
pub mod Lanes
pub mod Digest
pub mod Device
mod Tests
use tron_wallet_searcher.Common.{
  ℕ, zero, suc, ◌+◌, ◌-◌, ◌*◌, ◌/◌, ◌%◌, ◌^◌, List, [], ◌∷◌, bit_and, bit_or, bit_xor, ◌==◌, leb,
  if◌then◌else◌, get_or, set, take, drop, replicate, length, for_range,
}
use tron_wallet_searcher.Common.Words.{u8, u64}

abbrev pub keccak_round_constants : List ℕ
keccak_round_constants =
    0x0000000000000001 ∷ 0x0000000000008082 ∷ 0x800000000000808a ∷ 0x8000000080008000
    ∷ 0x000000000000808b ∷ 0x0000000080000001 ∷ 0x8000000080008081 ∷ 0x8000000000008009
    ∷ 0x000000000000008a ∷ 0x0000000000000088 ∷ 0x0000000080008009 ∷ 0x000000008000000a
    ∷ 0x000000008000808b ∷ 0x800000000000008b ∷ 0x8000000000008089 ∷ 0x8000000000008003
    ∷ 0x8000000000008002 ∷ 0x8000000000000080 ∷ 0x000000000000800a ∷ 0x800000008000000a
    ∷ 0x8000000080008081 ∷ 0x8000000000008080 ∷ 0x0000000080000001 ∷ 0x8000000080008008 ∷ []

abbrev pub keccak_rotation : List ℕ
keccak_rotation =
    0 ∷ 1 ∷ 62 ∷ 28 ∷ 27 ∷ 36 ∷ 44 ∷ 6 ∷ 55 ∷ 20 ∷ 3 ∷ 10 ∷ 43 ∷ 25 ∷ 39 ∷ 41 ∷ 45 ∷ 15 ∷ 21 ∷ 8
    ∷ 18 ∷ 2 ∷ 61 ∷ 56 ∷ 14 ∷ []

-- `value << amount` drops the bits above the word; `~` is the complement within it.
unfoldable pub rotate_left : ℕ → ℕ → ℕ
rotate_left value amount =
    if amount == 0 then value else bit_or (u64 (value * 2 ^ amount)) (value / 2 ^ (64 - amount))

unfoldable pub complement : ℕ → ℕ
complement value = 2 ^ 64 - 1 - value

-- `bytes` is the memory from the pointer on.
unfoldable pub load_little_endian : List ℕ → ℕ
unfolding for_range
load_little_endian bytes =
    for_range 8 0 (λ index value. bit_or value (u64 (get_or bytes index 0 * 2 ^ (index * 8)))) 0

-- `output + offset` is the pointer that the source is given.
unfoldable pub store_little_endian : ℕ → List ℕ → ℕ → List ℕ
unfolding for_range
store_little_endian value output offset =
    for_range 8 0 (λ index out. set out (offset + index) (u8 (value / 2 ^ (index * 8)))) output

-- A loop over the 25 lanes, `for y in 0..5 { for x in 0..5 { … } }`.
unfoldable pub for_lanes {ℓ} : {S : Type ℓ} → (ℕ → ℕ → S → S) → S → S
unfolding for_range
for_lanes body s = for_range 5 0 (λ y s'. for_range 5 0 (λ x s''. body x y s'') s') s

-- One array cell, read and written.
abbrev pub lane : List ℕ → ℕ → ℕ
lane state index = get_or state index 0

-- The five steps of a round, in the order of the source.
unfoldable pub column_parities : List ℕ → List ℕ
unfolding for_range
column_parities state =
    for_range 5 0
      (λ x columns. set columns x (
        bit_xor
          (bit_xor (bit_xor (bit_xor (lane state x) (lane state (x + 5))) (lane state (x + 10)))
            (lane state (x + 15)))
          (lane state (x + 20))))
      (replicate 5 0)

unfoldable pub column_deltas : List ℕ → List ℕ
unfolding for_range rotate_left
column_deltas columns =
    for_range 5 0
      (λ x deltas.
        set deltas x
          (bit_xor (lane columns ((x + 4) % 5)) (rotate_left (lane columns ((x + 1) % 5)) 1)))
      (replicate 5 0)

unfoldable pub apply_deltas : List ℕ → List ℕ → List ℕ
unfolding for_lanes
apply_deltas deltas state =
    for_lanes (λ x y s. set s (x + 5 * y) (bit_xor (lane s (x + 5 * y)) (lane deltas x))) state

unfoldable pub move_lanes : List ℕ → List ℕ
unfolding for_lanes rotate_left
move_lanes state =
    for_lanes
      (λ x y moved.
        set moved (y + 5 * ((2 * x + 3 * y) % 5))
          (rotate_left (lane state (x + 5 * y)) (lane keccak_rotation (x + 5 * y))))
      (replicate 25 0)

unfoldable pub mix_rows : List ℕ → List ℕ → List ℕ
unfolding for_lanes complement
mix_rows moved state =
    for_lanes
      (λ x y s. set s (x + 5 * y) (
        bit_xor (lane moved (x + 5 * y)) (
          bit_and (complement (lane moved ((x + 1) % 5 + 5 * y)))
            (lane moved ((x + 2) % 5 + 5 * y)))))
      state

unfoldable pub keccak_round : List ℕ → ℕ → List ℕ
unfolding column_parities column_deltas apply_deltas move_lanes mix_rows
keccak_round state round_constant =
    let deltas = column_deltas (column_parities state) in
    let mixed = apply_deltas deltas state in
    let rows = mix_rows (move_lanes mixed) mixed in
    set rows 0 (bit_xor (lane rows 0) round_constant)

unfoldable pub keccak_rounds : List ℕ → List ℕ → List ℕ
unfolding keccak_round
keccak_rounds [] state = state
keccak_rounds (round_constant ∷ rest) state = keccak_rounds rest (keccak_round state round_constant)

unfoldable pub keccak_permute : List ℕ → List ℕ
unfolding keccak_rounds
keccak_permute = keccak_rounds keccak_round_constants

abbrev pub rate : ℕ
rate = 136

-- `state[lane] ^= load_little_endian(block + lane * 8)` for the 17 lanes of a block.
unfoldable pub absorb_block : List ℕ → List ℕ → List ℕ
unfolding for_range
absorb_block block state =
    for_range (rate / 8) 0
      (λ index s.
        set s index (bit_xor (lane s index) (load_little_endian (drop (index * 8) block))))
      state

-- `while (size >= rate)`, on fuel: what is left of the data, and the state.
unfoldable pub absorb : ℕ → List ℕ → List ℕ → List ℕ × List ℕ
absorb zero bytes state = (bytes, state)
absorb (suc fuel) bytes state =
    let rest = absorb fuel (drop rate bytes) (keccak_permute (absorb_block bytes state)) in
    if leb rate (length bytes) then rest else (bytes, state)

-- `std::array<std::uint8_t, rate> block{}`.
unfoldable pub empty_block : List ℕ
empty_block = replicate rate 0

-- The last block: the data that is left, the domain separator and the final bit.
unfoldable pub final_block : List ℕ → List ℕ
unfolding for_range
final_block bytes =
    let block =
      for_range (length bytes) 0 (λ index out. set out index (get_or bytes index 0)) empty_block in
    let separated = set block (length bytes) (bit_xor (get_or block (length bytes) 0) 0x01) in
    set separated (rate - 1) (bit_xor (get_or separated (rate - 1) 0) 0x80)

-- The first four lanes, as bytes.
unfoldable pub squeeze : List ℕ → List ℕ
unfolding for_range
squeeze state =
    for_range 4 0 (λ index digest. store_little_endian (lane state index) digest (index * 8))
      (replicate 32 0)

unfoldable pub keccak_256 : List ℕ → List ℕ
keccak_256 bytes =
    let (rest, state) = absorb (length bytes) bytes (replicate 25 0) in
    squeeze (keccak_permute (absorb_block (final_block rest) state))

-- The device code has tables, byte readers and a round of its own.
abbrev pub device_keccak_round_constants : List ℕ
device_keccak_round_constants =
    0x0000000000000001 ∷ 0x0000000000008082 ∷ 0x800000000000808a ∷ 0x8000000080008000
    ∷ 0x000000000000808b ∷ 0x0000000080000001 ∷ 0x8000000080008081 ∷ 0x8000000000008009
    ∷ 0x000000000000008a ∷ 0x0000000000000088 ∷ 0x0000000080008009 ∷ 0x000000008000000a
    ∷ 0x000000008000808b ∷ 0x800000000000008b ∷ 0x8000000000008089 ∷ 0x8000000000008003
    ∷ 0x8000000000008002 ∷ 0x8000000000000080 ∷ 0x000000000000800a ∷ 0x800000008000000a
    ∷ 0x8000000080008081 ∷ 0x8000000000008080 ∷ 0x0000000080000001 ∷ 0x8000000080008008 ∷ []

abbrev pub device_keccak_rotation : List ℕ
device_keccak_rotation =
    0 ∷ 1 ∷ 62 ∷ 28 ∷ 27 ∷ 36 ∷ 44 ∷ 6 ∷ 55 ∷ 20 ∷ 3 ∷ 10 ∷ 43 ∷ 25 ∷ 39 ∷ 41 ∷ 45 ∷ 15 ∷ 21 ∷ 8
    ∷ 18 ∷ 2 ∷ 61 ∷ 56 ∷ 14 ∷ []

unfoldable pub device_rotate_left : ℕ → ℕ → ℕ
device_rotate_left value amount =
    if amount == 0 then value else bit_or (u64 (value * 2 ^ amount)) (value / 2 ^ (64 - amount))

unfoldable pub device_load_little_endian : List ℕ → ℕ
unfolding for_range
device_load_little_endian bytes =
    for_range 8 0 (λ index value. bit_or value (u64 (get_or bytes index 0 * 2 ^ (index * 8)))) 0

unfoldable pub device_store_little_endian : ℕ → List ℕ → ℕ → List ℕ
unfolding for_range
device_store_little_endian value output offset =
    for_range 8 0 (λ index out. set out (offset + index) (u8 (value / 2 ^ (index * 8)))) output

-- The round of a number, the five loops in the order of the source: `columns`, `deltas`, the state
-- under the deltas, `moved`, and the state of the rows.
unfoldable pub device_keccak_round : ℕ → List ℕ → List ℕ
device_keccak_round round state =
    let columns =
      for_range 5 0
        (λ x cells. set cells x (
          bit_xor
            (bit_xor (bit_xor (bit_xor (lane state x) (lane state (x + 5))) (lane state (x + 10)))
              (lane state (x + 15)))
            (lane state (x + 20))))
        (replicate 5 0) in
    let deltas =
      for_range 5 0
        (λ x cells. set cells x (
          bit_xor (lane columns ((x + 4) % 5)) (device_rotate_left (lane columns ((x + 1) % 5)) 1)))
        (replicate 5 0) in
    let mixed =
      for_lanes (λ x y s. set s (x + 5 * y) (bit_xor (lane s (x + 5 * y)) (lane deltas x))) state in
    let moved =
      for_lanes
        (λ x y cells.
          set cells (y + 5 * ((2 * x + 3 * y) % 5))
            (device_rotate_left (lane mixed (x + 5 * y)) (lane device_keccak_rotation (x + 5 * y))))
        (replicate 25 0) in
    let rows =
      for_lanes
        (λ x y s. set s (x + 5 * y) (
          bit_xor (lane moved (x + 5 * y)) (
            bit_and (2 ^ 64 - 1 - lane moved ((x + 1) % 5 + 5 * y))
              (lane moved ((x + 2) % 5 + 5 * y)))))
        mixed in
    set rows 0 (bit_xor (lane rows 0) (get_or device_keccak_round_constants round 0))

unfoldable pub device_keccak_permute : List ℕ → List ℕ
device_keccak_permute state = for_range 24 0 device_keccak_round state

-- The padding of a 64-byte input is written into the lanes directly.
unfoldable pub device_keccak_256_64 : List ℕ → List ℕ
device_keccak_256_64 input =
    let loaded =
      for_range 8 0 (λ index s. set s index (device_load_little_endian (drop (index * 8) input)))
        (replicate 25 0) in
    let state = device_keccak_permute (set (set loaded 8 0x01) 16 0x8000000000000000) in
    for_range 4 0 (λ index digest. device_store_little_endian (lane state index) digest (index * 8))
      (replicate 32 0)
