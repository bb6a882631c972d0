-- ===== src/OpenSsl/Bytes.antt =====
-- The padded bytes of a number, as `BN_bn2binpad` writes them.
use native.Mathlib.Nat.{pow-suc, pow-zero, div-add-mod', div-div-eq-div-mul, mod-one}
use tron_wallet_searcher.Common.{
  ℕ, zero, suc, ◌+◌, ◌*◌, ◌/◌, ◌%◌, ◌^◌, ◌≡◌, refl, ap, ◌∙◌, length, All, arith,
}
use tron_wallet_searcher.Common.Words.{IsByte}
use tron_wallet_searcher.Base58.Value.{be_value, be_value-acc}
use tron_wallet_searcher.OpenSsl.{be_bytes}

pub length-be_bytes : (n v : ℕ) → length (be_bytes n v) ≡ n
unfolding be_bytes
length-be_bytes zero v = refl
length-be_bytes (suc n) v = ap suc (length-be_bytes n v)

pub be_bytes-All : (n v : ℕ) → All IsByte (be_bytes n v)
unfolding be_bytes
be_bytes-All zero v = tt
be_bytes-All (suc n) v = (omega arith, be_bytes-All n v)

-- A remainder by a product, digit by digit.
mod_product : (v p : ℕ) → v / p % 256 * p + v % p ≡ v % (p * 256)
mod_product v p =
    let high = ap (λ (t : ℕ). t * p) (div-add-mod' (v / p) 256) in
    let quotient = ap (λ (t : ℕ). t * (p * 256)) (div-div-eq-div-mul v p 256) in
    omega (arith, div-add-mod' v p, high, quotient, div-add-mod' v (p * 256))

pub be_value-be_bytes : (n v : ℕ) → be_value 256 0 (be_bytes n v) ≡ v % 256 ^ n
unfolding be_bytes
be_value-be_bytes zero v = omega (arith, mod-one v, ap (λ (t : ℕ). v % t) (pow-zero 256))
be_value-be_bytes (suc n) v =
    let weight : 256 ^ length (be_bytes n v) ≡ 256 ^ n =
      ap (λ (m : ℕ). 256 ^ m) (length-be_bytes n v) in
    let plain : 0 * 256 + v / 256 ^ n % 256 ≡ v / 256 ^ n % 256 = omega arith in
    let split = be_value-acc 256 (v / 256 ^ n % 256) (be_bytes n v) in
    ap (λ (t : ℕ). be_value 256 t (be_bytes n v)) plain
    ∙ split
    ∙ rw (weight, be_value-be_bytes n v, pow-suc 256 n) (mod_product v (256 ^ n))
