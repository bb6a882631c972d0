-- ===== src/Keccak/Tests.antt =====
-- Published test vectors of Keccak-256.
use tron_wallet_searcher.Common.{
  ℕ, List, [], ◌∷◌, ◌≡◌, ◌%◌, refl, take, drop, replicate, length, arith,
}
use tron_wallet_searcher.Keccak.Lanes.{load-store}
use tron_wallet_searcher.Keccak.Digest.{absorb-fits}
use tron_wallet_searcher.Keccak.Device.{device_keccak_256_64-eq-keccak_256}
use tron_wallet_searcher.Keccak.{
  keccak_256, absorb, empty_block, final_block, absorb_block, load_little_endian, keccak_permute,
  squeeze, store_little_endian, device_keccak_256_64, rate,
}

empty_digest : take 4 (keccak_256 []) ≡ 0xc5 ∷ 0xd2 ∷ 0x46 ∷ 0x01 ∷ []
unfolding keccak_256 absorb empty_block final_block absorb_block load_little_endian keccak_permute
    squeeze store_little_endian
empty_digest = refl

-- "abc": 4e03657a … 1ac8c45
abc_digest : take 4 (keccak_256 (b'a' ∷ b'b' ∷ b'c' ∷ [])) ≡ 0x4e ∷ 0x03 ∷ 0x65 ∷ 0x7a ∷ []
unfolding keccak_256 absorb empty_block final_block absorb_block load_little_endian keccak_permute
    squeeze store_little_endian
abc_digest = refl

device_keccak_256_64-eq-keccak_256_example :
    device_keccak_256_64 (replicate 64 7) ≡ keccak_256 (replicate 64 7)
device_keccak_256_64-eq-keccak_256_example =
    device_keccak_256_64-eq-keccak_256 (replicate 64 7) refl

load-store_example :
    load_little_endian (drop 3 (store_little_endian 0x0123456789abcdef (replicate 16 9) 3))
    ≡ 0x0123456789abcdef
load-store_example = load-store 0x0123456789abcdef (replicate 16 9) 3 (omega arith) (omega arith)

abbrev message : List ℕ
message = replicate 200 5

absorb-fits_example :
    length (absorb (length message) message (replicate 25 0)).0 ≡ length message % rate
absorb-fits_example = absorb-fits message (replicate 25 0)
