-- ===== src/Base58/Device.antt =====
-- `device_base58_25` of native/src/cuda_runtime.cu against `base58_encode` of native/src/tron.cpp.
use tron_wallet_searcher.Common.{
  ℕ, zero, suc, ◌+◌, ◌-◌, ◌*◌, ◌/◌, ◌≤◌, ◌≡◌, refl, ap, ◌∙◌, List, [], ◌∷◌, ◌++◌, ◌==◌, length,
  take, drop, replicate, All, ok, err, arith, Bool-cases, inl, inr, ==_iff, Result,
}
use tron_wallet_searcher.Common.Words.{IsByte, u32}
use tron_wallet_searcher.Base58.{
  add_byte, encode_loop, base58_encode, base58_text, leading_zeroes, buffer_size, buffer_overflow,
  device_encode_loop, device_base58_25,
}
use tron_wallet_searcher.Base58.Encode.{encode_loop-total}

add_byte-within :
    (ds : List ℕ) (carry size processed : ℕ)
    → (add_byte ds carry size processed).processed ≤ processed + length ds
unfolding add_byte
add_byte-within [] carry size processed = omega arith
add_byte-within (d ∷ ds) carry size processed =
    ground (arith, add_byte-within ds (u32 (carry + 256 * d) / 58) size (processed + 1))

length-add_byte :
    (ds : List ℕ) (carry size processed : ℕ)
    → length (add_byte ds carry size processed).digits ≡ length ds
unfolding add_byte
length-add_byte [] carry size processed = refl
length-add_byte (d ∷ ds) carry size processed =
    ground (arith, length-add_byte ds (u32 (carry + 256 * d) / 58) size (processed + 1))

-- Cells behind a pass that ends without a carry are not touched.
add_byte-extend :
    (ds zs : List ℕ) (carry size processed : ℕ)
    → size ≤ processed + length ds
    → (add_byte ds carry size processed).carry ≡ 0
    → add_byte (ds ++ zs) carry size processed ≡ record (add_byte ds carry size processed) {
      digits = (add_byte ds carry size processed).digits ++ zs;
    }
unfolding add_byte
add_byte-extend [] [] carry size processed h e = refl
add_byte-extend [] (z ∷ zs) carry size processed h e = ground arith
add_byte-extend (d ∷ ds) zs carry size processed h e =
    ground (arith, add_byte-extend ds zs (u32 (carry + 256 * d) / 58) size (processed + 1))

loop-extend :
    (bytes ds zs : List ℕ) (size : ℕ) (ds' : List ℕ) (size' : ℕ)
    → size ≤ length ds
    → encode_loop bytes ds size ≡ ok (ds', size')
    → (device_encode_loop bytes (ds ++ zs) size ≡ (ds' ++ zs, size')) × (size' ≤ length ds')
unfolding encode_loop device_encode_loop
loop-extend [] ds zs size ds' size' h e = ground arith
loop-extend (byte ∷ bytes) ds zs size ds' size' h e =
    elim (Bool-cases ((add_byte ds byte size 0).carry == 0)) [
      | inl none_left ↦
          let rest : encode_loop bytes (add_byte ds byte size 0).digits _ ≡ ok (ds', size') =
            rw none_left at e in
          let step =
            add_byte-extend ds zs byte size 0 (omega arith)
              ((==_iff (add_byte ds byte size 0).carry 0).0 none_left) in
          rw step (
            loop-extend bytes (add_byte ds byte size 0).digits zs
              (add_byte ds byte size 0).processed ds' size'
              (omega (arith, add_byte-within ds byte size 0, length-add_byte ds byte size 0)) rest)
      | inr overflow ↦ absurd (refused (rw overflow at e))
    ]
  where
    refused : ◌≡◌ {A = Result (List ℕ × ℕ)} (err buffer_overflow) (ok (ds', size')) → ⊥
    refused h' = ground arith

replicate-append : (m n : ℕ) → ◌++◌ {A = ℕ} (replicate m 0) (replicate n 0) ≡ replicate (m + n) 0
replicate-append zero n = ap (λ k. replicate k 0) (plus_zero n)
  where
    plus_zero : (k : ℕ) → k ≡ 0 + k
    plus_zero k = omega arith
replicate-append (suc m) n = ap (◌∷◌ 0) (replicate-append m n) ∙ ap (λ k. replicate k 0) (shift m n)
  where
    shift : (i k : ℕ) → suc (i + k) ≡ suc i + k
    shift i k = omega arith

take-append : (n : ℕ) (xs ys : List ℕ) → n ≤ length xs → take n (xs ++ ys) ≡ take n xs
take-append zero xs ys h = refl
take-append (suc n) [] ys h = absurd (omega arith)
take-append (suc n) (x ∷ xs) ys h = ap (◌∷◌ x) (take-append n xs ys (omega arith))

leading_zeroes-le : (input : List ℕ) → leading_zeroes input ≤ length input
unfolding leading_zeroes
leading_zeroes-le [] = omega arith
leading_zeroes-le (b ∷ input) = ground (arith, leading_zeroes-le input)

-- On a 25-byte payload the device code writes the text of the reference and a NUL, although its
-- buffer has another size and it does not look at the last carry.
pub device_base58_25-eq-base58_encode :
    (input : List ℕ)
    → length input ≡ 25
    → All IsByte input
    → (s : List ℕ) × (base58_encode input ≡ ok s) × (device_base58_25 input ≡ s ++ 0 ∷ [])
unfolding base58_encode device_base58_25 base58_text
device_base58_25-eq-base58_encode input size h =
    let zeroes = leading_zeroes input in
    let cells = buffer_size (length input - zeroes) in
    let fewer : cells ≤ 40 = omega (arith, leading_zeroes-le input) in
    let (digits, used, runs, within) = encode_loop-total input h in
    let whole : cells + (40 - cells) ≡ 40 = omega arith in
    let blank : ◌++◌ {A = ℕ} (replicate cells 0) (replicate (40 - cells) 0) ≡ replicate 40 0 =
      replicate-append cells (40 - cells) ∙ ap (λ k. replicate k 0) whole in
    let (device, fits) =
      loop-extend (drop zeroes input) (replicate cells 0) (replicate (40 - cells) 0) 0 digits used
        (omega arith) runs in
    (
      base58_text zeroes digits used,
      rw runs,
      rw (← blank, device, take-append used digits (replicate (40 - cells) 0) fits),
    )
