-- ===== src/PrefixFilter/Bound.antt =====
-- The two bounds of a prefix: `host_prefix_bound` of native/src/cuda_runtime.cu.
use native.Mathlib.Nat.{pow-suc, pow-zero, mul-le-mul_right, one-le-pow}
use tron_wallet_searcher.Common.{
  ℕ, zero, suc, ◌+◌, ◌-◌, ◌*◌, ◌^◌, ◌≤◌, ◌<◌, ◌≡◌, refl, sym, ap, subst, ◌∙◌, List, ◌++◌, map, true,
  false, length, length-map, All, arith,
}
use tron_wallet_searcher.Common.Words.{pow-add}
use tron_wallet_searcher.Base58.{alphabet_at}
use tron_wallet_searcher.Base58.Value.{be_value, be_value-acc, be_value-append, be_value-lt}
use tron_wallet_searcher.Base58.Carry.{IsDigit}
use tron_wallet_searcher.PrefixFilter.{zero_integer, shift_places, host_prefix_bound}
use tron_wallet_searcher.PrefixFilter.Integer.{
  IsInteger, Gives, zero-IsInteger, host_multiply_small-Gives, host_add_small-Gives,
  host_subtract_one-Gives,
}
use tron_wallet_searcher.PrefixFilter.Decode.{decode_loop-Gives}

shift_places-Gives :
    (n value : ℕ) (xs : List ℕ)
    → value * 58 ^ n < 256 ^ 25
    → IsInteger value xs
    → Gives (shift_places n xs) (value * 58 ^ n)
unfolding shift_places
shift_places-Gives zero value xs fits i = (
  xs,
  refl,
  subst (λ v. IsInteger v xs) (omega (arith, ap (λ (t : ℕ). value * t) (pow-zero 58))) i,
)
shift_places-Gives (suc n) value xs fits i =
    let regroup : value * 58 * 58 ^ n ≡ value * 58 ^ suc n =
      omega (arith, ap (λ (t : ℕ). value * t) (pow-suc 58 n)) in
    let weight : 1 ≤ 58 ^ n = one-le-pow n 58 (omega arith) in
    let grows : value * 58 ≤ value * 58 * 58 ^ n = grind arith in
    let (shifted, multiplies, i₁) =
      host_multiply_small-Gives value 58 xs (omega arith) (omega arith) i in
    let (result, runs, i₂) = shift_places-Gives n (value * 58) shifted (omega arith) i₁ in
    (result, rw multiplies runs, subst (λ v. IsInteger v result) regroup i₂)

module _ (digits : List ℕ) (each : All IsDigit digits) (short : length digits ≤ 34) where
  top : suc (be_value 58 0 digits) * 58 ^ (34 - length digits) ≤ 58 ^ 34
  top =
      let below = be_value-lt 58 digits each in
      let whole : length digits + (34 - length digits) ≡ 34 = omega arith in
      let product = mul-le-mul_right (58 ^ (34 - length digits)) below in
      let power : 58 ^ length digits * 58 ^ (34 - length digits) ≡ 58 ^ 34 =
        sym (pow-add 58 (length digits) (34 - length digits)) ∙ ap (λ (n : ℕ). 58 ^ n) whole in
      rw power at product

  -- The lower bound of a text of at most 34 digits is computed without an exception: its number,
  -- followed by zero digits up to 34 digits.
  pub lower_bound :
      Gives
        (host_prefix_bound (map alphabet_at digits) false)
        (be_value 58 0 digits * 58 ^ (34 - length digits))
  unfolding host_prefix_bound
  lower_bound =
      let room : 58 ^ 34 < 256 ^ 25 = omega arith in
      let weight : 1 ≤ 58 ^ (34 - length digits) =
        one-le-pow (34 - length digits) 58 (omega arith) in
      let grows : be_value 58 0 digits ≤ be_value 58 0 digits * 58 ^ (34 - length digits) =
        grind arith in
      let (value, decodes, i) =
        decode_loop-Gives digits 0 zero_integer each (omega (arith, top)) zero-IsInteger in
      let (result, shifts, i') =
        shift_places-Gives (34 - length digits) (be_value 58 0 digits) value (omega (arith, top))
          i in
      (result, rw (length-map alphabet_at digits, decodes, shifts), i')

  -- The upper bound of a text of at most 34 digits is computed without an exception: one below the
  -- next text of its length, followed by zero digits up to 34 digits.
  pub upper_bound :
      Gives
        (host_prefix_bound (map alphabet_at digits) true)
        (suc (be_value 58 0 digits) * 58 ^ (34 - length digits) - 1)
  unfolding host_prefix_bound
  upper_bound =
      let room : 58 ^ 34 < 256 ^ 25 = omega arith in
      let weight : 1 ≤ 58 ^ (34 - length digits) =
        one-le-pow (34 - length digits) 58 (omega arith) in
      let grows : suc (be_value 58 0 digits)
          ≤ suc (be_value 58 0 digits) * 58 ^ (34 - length digits) =
        grind arith in
      let (value, decodes, i) =
        decode_loop-Gives digits 0 zero_integer each (omega (arith, top)) zero-IsInteger in
      let (above, adds, i₁) =
        host_add_small-Gives (be_value 58 0 digits) 1 value (omega arith) (omega (arith, top)) i in
      let next : be_value 58 0 digits + 1 ≡ suc (be_value 58 0 digits) = omega arith in
      let (shifted, shifts, i₂) =
        shift_places-Gives (34 - length digits) (suc (be_value 58 0 digits)) above
          (omega (arith, top)) (subst (λ v. IsInteger v above) next i₁) in
      let positive : suc (be_value 58 0 digits) * 58 ^ (34 - length digits)
          ≡ suc (suc (be_value 58 0 digits) * 58 ^ (34 - length digits) - 1) =
        omega arith in
      let (result, minus, i₃) =
        host_subtract_one-Gives _ shifted (subst (λ v. IsInteger v shifted) positive i₂) in
      (result, rw (length-map alphabet_at digits, decodes, adds, shifts, minus), i₃)

  -- The number of a text with these digits in front, 34 in all, lies between the bounds.
  pub within_bounds :
      (rest : List ℕ)
      → All IsDigit rest
      → length rest ≡ 34 - length digits
      → (be_value 58 0 digits * 58 ^ (34 - length digits) ≤ be_value 58 0 (digits ++ rest))
        × (be_value 58 0 (digits ++ rest)
            ≤ suc (be_value 58 0 digits) * 58 ^ (34 - length digits) - 1)
  within_bounds rest h size =
      let split : be_value 58 0 (digits ++ rest)
          ≡ be_value 58 0 digits * 58 ^ (34 - length digits) + be_value 58 0 rest =
        be_value-append 58 0 digits rest
        ∙ rw size at (be_value-acc 58 (be_value 58 0 digits) rest) in
      let below : be_value 58 0 rest < 58 ^ (34 - length digits) =
        rw size at (be_value-lt 58 rest h) in
      omega arith
