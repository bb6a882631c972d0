-- ===== src/Keccak/Lanes.antt =====
-- Lanes and their little-endian bytes: native/src/tron.cpp.
use native.Mathlib.Nat.{mod-eq_of_lt, pow-le-pow_right}
use tron_wallet_searcher.Common.{
  ℕ, ◌+◌, ◌-◌, ◌*◌, ◌/◌, ◌^◌, ◌≤◌, ◌<◌, ◌≡◌, List, bit_or, get_or, drop, length, arith, ◌&&◌, leb,
  ltb, if◌then◌else◌,
}
use tron_wallet_searcher.Common.Words.{u8, u64, IsByte, IsU64, bit_or-shifted, zero-bit_or}
use tron_wallet_searcher.Common.Arrays.{get_or-fill, get_or-drop}
use tron_wallet_searcher.Keccak.{load_little_endian, store_little_endian}

-- `value |= byte << k`, where `value` is the number `s` of k bits.
or_byte :
    (k b v s : ℕ)
    → k ≤ 56
    → IsByte b
    → s < 2 ^ k
    → v ≡ s
    → bit_or v (u64 (b * 2 ^ k)) ≡ s + b * 2 ^ k
or_byte k b v s hk hb hs e =
    let bound : 2 ^ k ≤ 2 ^ 56 = pow-le-pow_right {n = 2} (omega arith) hk in
    let fits : b * 2 ^ k < 2 ^ 64 = grind arith in
    rw (e, mod-eq_of_lt {n = b * 2 ^ k} {m = 2 ^ 64} fits) (bit_or-shifted k b s hs)

abbrev pub byte_at : List ℕ → ℕ → ℕ
byte_at bytes i = get_or bytes i 0

pub load-value :
    (bytes : List ℕ)
    → ((i : ℕ) → i < 8 → IsByte (byte_at bytes i))
    → load_little_endian bytes
      ≡ byte_at bytes 0
        + byte_at bytes 1 * 2 ^ 8
        + byte_at bytes 2 * 2 ^ 16
        + byte_at bytes 3 * 2 ^ 24
        + byte_at bytes 4 * 2 ^ 32
        + byte_at bytes 5 * 2 ^ 40
        + byte_at bytes 6 * 2 ^ 48
        + byte_at bytes 7 * 2 ^ 56
unfolding load_little_endian
load-value bytes h =
    or_byte 56 _ _ _ (omega arith) (h 7 (omega arith))
      (omega (
        arith,
        h 0 (omega arith),
        h 1 (omega arith),
        h 2 (omega arith),
        h 3 (omega arith),
        h 4 (omega arith),
        h 5 (omega arith),
        h 6 (omega arith),
      ))
      (or_byte 48 _ _ _ (omega arith) (h 6 (omega arith))
        (omega (
          arith,
          h 0 (omega arith),
          h 1 (omega arith),
          h 2 (omega arith),
          h 3 (omega arith),
          h 4 (omega arith),
          h 5 (omega arith),
        ))
        (or_byte 40 _ _ _ (omega arith) (h 5 (omega arith))
          (omega (
            arith,
            h 0 (omega arith),
            h 1 (omega arith),
            h 2 (omega arith),
            h 3 (omega arith),
            h 4 (omega arith),
          ))
          (or_byte 32 _ _ _ (omega arith) (h 4 (omega arith))
            (omega
              (arith, h 0 (omega arith), h 1 (omega arith), h 2 (omega arith), h 3 (omega arith)))
            (or_byte 24 _ _ _ (omega arith) (h 3 (omega arith))
              (omega (arith, h 0 (omega arith), h 1 (omega arith), h 2 (omega arith)))
              (or_byte 16 _ _ _ (omega arith) (h 2 (omega arith))
                (omega (arith, h 0 (omega arith), h 1 (omega arith)))
                (or_byte 8 _ _ _ (omega arith) (h 1 (omega arith))
                  (omega (arith, h 0 (omega arith))) first_byte))))))
  where
    first_byte : bit_or 0 (u64 (byte_at bytes 0 * 2 ^ 0)) ≡ byte_at bytes 0
    first_byte = omega (arith, h 0 (omega arith), zero-bit_or (u64 (byte_at bytes 0 * 2 ^ 0)))

-- A load reads eight bytes and nothing else.
pub load-cong :
    (xs ys : List ℕ)
    → ((i : ℕ) → i < 8 → byte_at xs i ≡ byte_at ys i)
    → load_little_endian xs ≡ load_little_endian ys
unfolding load_little_endian
load-cong xs ys h = cc (
  h 0 (omega arith),
  h 1 (omega arith),
  h 2 (omega arith),
  h 3 (omega arith),
  h 4 (omega arith),
  h 5 (omega arith),
  h 6 (omega arith),
  h 7 (omega arith),
)

-- Eight bytes written from `offset` on, and no other.
pub store-bytes :
    (value : ℕ) (output : List ℕ) (offset j : ℕ)
    → offset + 8 ≤ length output
    → byte_at (store_little_endian value output offset) j ≡ (
        if leb offset j && ltb j (offset + 8)
        then u8 (value / 2 ^ ((j - offset) * 8))
        else byte_at output j)
unfolding store_little_endian
store-bytes value output offset j fits =
    ground (arith, get_or-fill (λ k. u8 (value / 2 ^ (k * 8))) offset 8 0 output j 0)

pub store-byte :
    (value : ℕ) (output : List ℕ) (offset j : ℕ)
    → offset + 8 ≤ length output
    → j < 8
    → byte_at (drop offset (store_little_endian value output offset)) j ≡ u8 (value / 2 ^ (j * 8))
store-byte value output offset j fits h = ground (
  arith,
  get_or-drop offset (store_little_endian value output offset) j 0,
  store-bytes value output offset (offset + j) fits,
)

-- A word that is stored anywhere in a buffer is loaded back.
pub load-store :
    (value : ℕ) (output : List ℕ) (offset : ℕ)
    → IsU64 value
    → offset + 8 ≤ length output
    → load_little_endian (drop offset (store_little_endian value output offset)) ≡ value
load-store value output offset word fits = ground (
  arith,
  load-value stored (λ i h. omega (arith, at i h)),
  at 0 (omega arith),
  at 1 (omega arith),
  at 2 (omega arith),
  at 3 (omega arith),
  at 4 (omega arith),
  at 5 (omega arith),
  at 6 (omega arith),
  at 7 (omega arith),
)
  where
    stored : List ℕ
    stored = drop offset (store_little_endian value output offset)

    at : (j : ℕ) → j < 8 → byte_at stored j ≡ u8 (value / 2 ^ (j * 8))
    at j h = store-byte value output offset j fits h
