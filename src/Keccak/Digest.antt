-- ===== src/Keccak/Digest.antt =====
-- The absorbing loop of `keccak_256` of native/src/tron.cpp, and the shape of its digest.
use tron_wallet_searcher.Common.{
  ℕ, zero, suc, ◌+◌, ◌-◌, ◌*◌, ◌/◌, ◌%◌, ◌≤◌, ◌≡◌, refl, ◌∙◌, inl, inr, List, drop, set, length,
  replicate, length-drop, drop-drop, length-set, leb, leb→le, arith, Bool-cases, All, All-set,
  for_range-keeps, ◌^◌,
}
use tron_wallet_searcher.Common.Words.{IsByte, u8}
use tron_wallet_searcher.Keccak.{
  rate, absorb, absorb_block, keccak_permute, squeeze, keccak_256, store_little_endian, lane,
}

-- With fuel for every byte the loop ends by its test: what it leaves is the data behind the last
-- whole block.
pub absorb-rest :
    (fuel : ℕ) (bytes state : List ℕ)
    → length bytes ≤ fuel
    → (absorb fuel bytes state).0 ≡ drop (length bytes / rate * rate) bytes
unfolding absorb
absorb-rest zero bytes state h =
    let none_whole : length bytes / rate * rate ≡ 0 = omega arith in rw none_whole
absorb-rest (suc fuel) bytes state h = elim (Bool-cases (leb rate (length bytes))) [
  | inl more ↦
      let whole : rate ≤ length bytes = leb→le rate (length bytes) more in
      let shorter = length-drop rate bytes in
      let position : rate + (length bytes - rate) / rate * rate ≡ length bytes / rate * rate =
        omega arith in
      rw more (
        absorb-rest fuel (drop rate bytes) (keccak_permute (absorb_block bytes state))
          (omega (arith, shorter))
        ∙ rw (shorter, drop-drop, position))
  | inr done ↦
      let none_whole : length bytes / rate * rate ≡ 0 = ground arith in rw (done, none_whole)
]

-- So the last block has room for the padding.
pub absorb-fits :
    (bytes state : List ℕ) → length (absorb (length bytes) bytes state).0 ≡ length bytes % rate
absorb-fits bytes state =
    rw (absorb-rest (length bytes) bytes state (omega arith))
      (omega (arith, length-drop (length bytes / rate * rate) bytes))

-- A list of `n` bytes.
pub record IsBytes (n : ℕ) (bytes : List ℕ) : Type 0 where
  pub size : length bytes ≡ n
  pub each : All IsByte bytes

IsBytes-set :
    (n : ℕ) (bytes : List ℕ) (i v : ℕ) → IsByte v → IsBytes n bytes → IsBytes n (set bytes i v)
IsBytes-set n bytes i v h b = record {
  size = length-set bytes i v ∙ b.size;
  each = All-set IsByte bytes i v h b.each;
}

store-IsBytes :
    (n value : ℕ) (output : List ℕ) (offset : ℕ)
    → IsBytes n output
    → IsBytes n (store_little_endian value output offset)
unfolding store_little_endian
store-IsBytes n value output offset b =
    for_range-keeps (IsBytes n) _
      (λ i s. IsBytes-set n s (offset + i) (u8 (value / 2 ^ (i * 8))) (omega arith)) 8 0 output b

squeeze-IsBytes : (state : List ℕ) → IsBytes 32 (squeeze state)
unfolding squeeze
squeeze-IsBytes state =
    for_range-keeps (IsBytes 32) _ (λ i s. store-IsBytes 32 (lane state i) s (i * 8)) 4 0
      (replicate 32 0) (record { size = refl; each = omega arith })

-- The digest is 32 bytes, whatever the message.
pub keccak_256-IsBytes : (bytes : List ℕ) → IsBytes 32 (keccak_256 bytes)
unfolding keccak_256
keccak_256-IsBytes bytes = squeeze-IsBytes _
