-- ===== src/Chain/BigEndian.antt =====
-- The bytes of a field element, on the device and on the host: `field_to_big_endian` of
-- native/src/cuda_chain.cuh and `host_chain_field_from_big_endian` of native/src/cuda_runtime.cu.
use tron_wallet_searcher.Common.{
  ℕ, ◌+◌, ◌*◌, ◌/◌, ◌%◌, ◌^◌, ◌≡◌, ◌≤◌, refl, ap, ap₂, List, [], ◌∷◌, All, arith, ◌∙◌,
}
use tron_wallet_searcher.Common.Words.{u8, u64, IsByte, IsU64, shifted-bit_or}
use tron_wallet_searcher.Base58.Value.{be_value, be_value-append, be_value-acc}
use tron_wallet_searcher.Chain.Limbs.{value, IsWide}
use tron_wallet_searcher.Chain.Curve.{
  word_to_big_endian, field_to_big_endian, word_from_big_endian, host_chain_field_from_big_endian,
}

-- The digits of a word of eight bytes.
eight_bytes :
    (w : ℕ)
    → IsU64 w
    → ((((((w / 2 ^ 56 % 256 * 256 + w / 2 ^ 48 % 256) * 256 + w / 2 ^ 40 % 256) * 256
                        + w / 2 ^ 32 % 256)
                      * 256
                    + w / 2 ^ 24 % 256)
                  * 256
                + w / 2 ^ 16 % 256)
              * 256
            + w / 2 ^ 8 % 256)
          * 256
        + w % 256
      ≡ w
eight_bytes w small =
    let a : w / 2 ^ 48 ≡ 256 * (w / 2 ^ 56) + w / 2 ^ 48 % 256 = omega arith in
    let b : w / 2 ^ 40 ≡ 256 * (w / 2 ^ 48) + w / 2 ^ 40 % 256 = omega arith in
    let c : w / 2 ^ 32 ≡ 256 * (w / 2 ^ 40) + w / 2 ^ 32 % 256 = omega arith in
    let d : w / 2 ^ 24 ≡ 256 * (w / 2 ^ 32) + w / 2 ^ 24 % 256 = omega arith in
    let e : w / 2 ^ 16 ≡ 256 * (w / 2 ^ 24) + w / 2 ^ 16 % 256 = omega arith in
    let f : w / 2 ^ 8 ≡ 256 * (w / 2 ^ 16) + w / 2 ^ 8 % 256 = omega arith in
    omega (arith, a, b, c, d, e, f)

be_value-word : (w : ℕ) → IsU64 w → be_value 256 0 (word_to_big_endian w) ≡ w
unfolding word_to_big_endian
be_value-word w small = omega (arith, eight_bytes w small)

-- The bytes read the number of the limbs.
be_value-field :
    (limbs : List ℕ) → All IsU64 limbs → be_value 256 0 (field_to_big_endian limbs) ≡ value limbs
unfolding field_to_big_endian word_to_big_endian
be_value-field [] h = refl
be_value-field (limb ∷ limbs) h =
    let front = be_value-append 256 0 (field_to_big_endian limbs) (word_to_big_endian limb) in
    let weighed =
      be_value-acc 256 (be_value 256 0 (field_to_big_endian limbs)) (word_to_big_endian limb) in
    let word = be_value-word limb h.0 in
    omega (arith, front, weighed, word, be_value-field limbs h.1)

-- A number is at most what it becomes with more digits.
be_value-le : (acc : ℕ) (bytes : List ℕ) → acc ≤ be_value 256 acc bytes
be_value-le acc [] = omega arith
be_value-le acc (byte ∷ bytes) = omega (arith, be_value-le (acc * 256 + byte) bytes)

word_from_big_endian_lem :
    (bytes : List ℕ) (acc : ℕ)
    → All IsByte bytes
    → IsU64 (be_value 256 acc bytes)
    → word_from_big_endian bytes acc ≡ be_value 256 acc bytes
unfolding word_from_big_endian
word_from_big_endian_lem [] acc h small = refl
word_from_big_endian_lem (byte ∷ bytes) acc h small =
    let fits = be_value-le (acc * 256 + byte) bytes in
    let cast : u64 (acc * 2 ^ 8) ≡ acc * 2 ^ 8 = omega (arith, fits, small) in
    let joined = shifted-bit_or 8 acc byte h.0 in
    rw (cast, joined) (word_from_big_endian_lem bytes (acc * 2 ^ 8 + byte) h.1 small)

word_back : (w : ℕ) → IsU64 w → word_from_big_endian (word_to_big_endian w) 0 ≡ w
unfolding word_to_big_endian
word_back w small =
    let byte = λ (n : ℕ). cast_byte n in
    word_from_big_endian_lem (word_to_big_endian w) 0
      (
        byte (w / 2 ^ 56),
        (
          byte (w / 2 ^ 48),
          (
            byte (w / 2 ^ 40),
            (
              byte (w / 2 ^ 32),
              (byte (w / 2 ^ 24), (byte (w / 2 ^ 16), (byte (w / 2 ^ 8), (byte (w / 2 ^ 0), tt)))),
            ),
          ),
        ),
      )
      (omega (arith, be_value-word w small))
    ∙ be_value-word w small
  where
    cast_byte : (n : ℕ) → IsByte (u8 n)
    cast_byte n = omega arith

host_chain_field_lem :
    (limbs : List ℕ)
    → IsWide 4 limbs
    → host_chain_field_from_big_endian (field_to_big_endian limbs) ≡ limbs
unfolding host_chain_field_from_big_endian field_to_big_endian word_to_big_endian
host_chain_field_lem (a ∷ b ∷ c ∷ d ∷ []) (four, (ha, (hb, (hc, (hd, _))))) =
    ap₂ (λ u us. u ∷ us) (word_back a ha)
      (ap₂ (λ u us. u ∷ us) (word_back b hb)
        (ap₂ (λ u us. u ∷ us) (word_back c hc) (ap (λ u. u ∷ []) (word_back d hd))))
host_chain_field_lem [] (four, h) = absurd (omega arith)
host_chain_field_lem (a ∷ []) (four, h) = absurd (omega arith)
host_chain_field_lem (a ∷ b ∷ []) (four, h) = absurd (omega arith)
host_chain_field_lem (a ∷ b ∷ c ∷ []) (four, h) = absurd (omega arith)
host_chain_field_lem (a ∷ b ∷ c ∷ d ∷ e ∷ rest) (four, h) = absurd (omega arith)

-- The bytes that the device writes of four 64-bit limbs are the number of the limbs in base 256, the
-- most significant byte first, and the host reads the same limbs back from them.
pub host_chain_field_from_big_endian-field_to_big_endian :
    (limbs : List ℕ)
    → IsWide 4 limbs
    → (host_chain_field_from_big_endian (field_to_big_endian limbs) ≡ limbs)
      × (be_value 256 0 (field_to_big_endian limbs) ≡ value limbs)
host_chain_field_from_big_endian-field_to_big_endian limbs h =
    (host_chain_field_lem limbs h, be_value-field limbs h.1)
