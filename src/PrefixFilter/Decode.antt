-- ===== src/PrefixFilter/Decode.antt =====
-- `host_decode_base58` of native/src/cuda_runtime.cu against `base58_encode` of native/src/tron.cpp.
use mathlib.Core.List.{map-append}
use native.Mathlib.Nat.{one-le-pow}
use tron_wallet_searcher.Common.{
  ℕ, zero, suc, ◌+◌, ◌*◌, ◌^◌, ◌≤◌, ◌<◌, ◌≡◌, refl, sym, ap, ap₂, ◌∙◌, List, [], ◌∷◌, ◌++◌, map,
  Bool, true, false, ◌==◌, ==_iff, length, replicate, All, All-append, Result, ok, err, arith, text,
}
use tron_wallet_searcher.Common.Words.{IsByte, all_below, all_below_sound}
use tron_wallet_searcher.Base58.{base58_alphabet, alphabet_at, base58_encode, leading_zeroes}
use tron_wallet_searcher.Base58.Value.{be_value, be_value-acc, be_value-lt, be_value-zeroes}
use tron_wallet_searcher.Base58.Carry.{IsDigit}
use tron_wallet_searcher.Base58.Encode.{base58_encode-value}
use tron_wallet_searcher.PrefixFilter.{
  find, host_base58_digit, decode_loop, zero_integer, host_decode_base58,
}
use tron_wallet_searcher.PrefixFilter.Integer.{
  number, number-cons, IsInteger, Gives, zero-IsInteger, host_multiply_small-Gives,
  host_add_small-Gives,
}

is_digit_of : ℕ → Result ℕ → Bool
is_digit_of d (ok e) = e == d
is_digit_of d (err e) = false

digit_table : all_below 58 (λ d. is_digit_of d (host_base58_digit (alphabet_at d))) ≡ true
unfolding all_below is_digit_of host_base58_digit find alphabet_at base58_alphabet text
digit_table = refl

is_digit_of_sound : (d : ℕ) (r : Result ℕ) → is_digit_of d r ≡ true → r ≡ ok d
unfolding is_digit_of
is_digit_of_sound d (ok e) h = ap ok ((==_iff e d).0 h)
is_digit_of_sound d (err e) h = ground arith

-- Every digit is found at its place in the alphabet.
pub host_base58_digit-alphabet_at : (d : ℕ) → IsDigit d → host_base58_digit (alphabet_at d) ≡ ok d
host_base58_digit-alphabet_at d h = is_digit_of_sound d _ (all_below_sound 58 _ d digit_table h)

pub be_value-ge : (base acc : ℕ) (ds : List ℕ) → 0 < base → acc ≤ be_value base acc ds
be_value-ge base acc ds pos =
    let weight : 1 ≤ base ^ length ds = one-le-pow (length ds) base pos in
    let grows : acc ≤ acc * base ^ length ds = grind arith in
    omega (arith, be_value-acc base acc ds)

quotient_unique : (x y p a b : ℕ) → a < p → b < p → x * p + a ≡ y * p + b → (x ≡ y) × (a ≡ b)
quotient_unique zero zero p a b ha hb e = (refl, omega arith)
quotient_unique zero (suc y) p a b ha hb e = absurd (grind arith)
quotient_unique (suc x) zero p a b ha hb e = absurd (grind arith)
quotient_unique (suc x) (suc y) p a b ha hb e =
    let (same, rest) = quotient_unique x y p a b ha hb (omega arith) in (ap suc same, rest)

-- The loop reads the digits behind the number that it has.
pub decode_loop-Gives :
    (digits : List ℕ) (value : ℕ) (xs : List ℕ)
    → All IsDigit digits
    → be_value 58 value digits < 256 ^ 25
    → IsInteger value xs
    → Gives (decode_loop (map alphabet_at digits) xs) (be_value 58 value digits)
unfolding decode_loop
decode_loop-Gives [] value xs h fits i = (xs, refl, i)
decode_loop-Gives (d ∷ digits) value xs h fits i =
    let small = be_value-ge 58 (value * 58 + d) digits (omega arith) in
    let (shifted, multiplies, i₁) =
      host_multiply_small-Gives value 58 xs (omega arith) (omega arith) i in
    let (sum, adds, i₂) =
      host_add_small-Gives (value * 58) d shifted (omega (arith, h.0)) (omega arith) i₁ in
    let (result, runs, i₃) = decode_loop-Gives digits (value * 58 + d) sum h.1 fits i₂ in
    (result, rw (multiplies, host_base58_digit-alphabet_at d h.0, adds) runs, i₃)

-- Bytes of one length are determined by their number.
pub number-injective :
    (xs ys : List ℕ)
    → All IsByte xs
    → All IsByte ys
    → length xs ≡ length ys
    → number xs ≡ number ys
    → xs ≡ ys
number-injective [] [] h k e n = refl
number-injective [] (y ∷ ys) h k e n = absurd (omega arith)
number-injective (x ∷ xs) [] h k e n = absurd (omega arith)
number-injective (x ∷ xs) (y ∷ ys) h k e n =
    let size : length xs ≡ length ys = omega arith in
    let weight : 256 ^ length xs ≡ 256 ^ length ys = ap (λ (m : ℕ). 256 ^ m) size in
    let split : x * 256 ^ length ys + number xs ≡ y * 256 ^ length ys + number ys =
      rw weight at (sym (number-cons x xs) ∙ n ∙ number-cons y ys) in
    let same =
      quotient_unique x y (256 ^ length ys) (number xs) (number ys)
        (rw weight at (be_value-lt 256 xs h.1)) (be_value-lt 256 ys k.1) split in
    ap₂ ◌∷◌ same.0 (number-injective xs ys h.1 k.1 size same.1)

one_at_zero : alphabet_at 0 ≡ b'1'
unfolding alphabet_at base58_alphabet text
one_at_zero = refl

map-zeroes : (n : ℕ) → map alphabet_at (replicate n 0) ≡ replicate n b'1'
map-zeroes zero = refl
map-zeroes (suc n) = ap₂ ◌∷◌ one_at_zero (map-zeroes n)

zeroes-IsDigit : (n : ℕ) → All IsDigit (replicate n 0)
zeroes-IsDigit zero = tt
zeroes-IsDigit (suc n) = (omega arith, zeroes-IsDigit n)

-- The text of an input, as the digits that it spells.
pub base58_encode-digits :
    (input : List ℕ)
    → All IsByte input
    → (digits : List ℕ) × (base58_encode input ≡ ok (map alphabet_at digits))
      × All IsDigit digits
      × (be_value 58 0 digits ≡ number input)
base58_encode-digits input h =
    let (digits, runs, each, value) = base58_encode-value input h in
    let zeroes = leading_zeroes input in
    (
      replicate zeroes 0 ++ digits,
      runs
          ∙ ap ok (
              sym (
                map-append alphabet_at _ _
                ∙ ap (λ s. s ++ map alphabet_at digits) (map-zeroes zeroes))),
      All-append IsDigit (replicate zeroes 0) digits (zeroes-IsDigit zeroes) each,
      be_value-zeroes 58 zeroes digits ∙ value,
    )

-- Every 25-byte payload is encoded, and its text is decoded to the payload again.
pub host_decode_base58-base58_encode :
    (payload : List ℕ)
    → length payload ≡ 25
    → All IsByte payload
    → (s : List ℕ) × (base58_encode payload ≡ ok s) × (host_decode_base58 s ≡ ok payload)
unfolding host_decode_base58
host_decode_base58-base58_encode payload size h =
    let (digits, runs, each, value) = base58_encode-digits payload h in
    let fits : be_value 58 0 digits < 256 ^ 25 =
      omega (arith, rw size at (be_value-lt 256 payload h)) in
    let (xs, decodes, i) = decode_loop-Gives digits 0 zero_integer each fits zero-IsInteger in
    let same = number-injective xs payload i.each h (i.size ∙ sym size) (i.holds ∙ value) in
    (map alphabet_at digits, runs, rw decodes (ap ok same))
