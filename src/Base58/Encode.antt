-- ===== src/Base58/Encode.antt =====
-- The outer loop of `base58_encode` of native/src/tron.cpp, and the number of its text.
use mathlib.Core.List.{reverse-cons}
use native.Mathlib.Nat.{one-le-pow}
use tron_wallet_searcher.Common.{
  ℕ, zero, suc, ◌+◌, ◌-◌, ◌*◌, ◌^◌, ◌≤◌, ◌<◌, ◌≡◌, refl, sym, ap, subst, ◌∙◌, List, [], ◌∷◌, ◌++◌,
  map, reverse, length, take, drop, replicate, length-replicate, length-drop, All, All-drop,
  All-take, All-append, ok, arith,
}
use tron_wallet_searcher.Common.Words.{IsByte}
use tron_wallet_searcher.Base58.{
  add_byte, encode_loop, base58_encode, base58_text, alphabet_at, leading_zeroes, buffer_size,
}
use tron_wallet_searcher.Base58.Value.{
  le_value, be_value, be_value-acc, be_value-lt, be_value-zeroes, be_value-reverse,
  le_value-replicate,
}
use tron_wallet_searcher.Base58.Carry.{IsDigit, Clean, Clean-replicate, add_byte-IsAdded}
use tron_wallet_searcher.Base58.Room.{buffer_size-room}

-- A working buffer of `cells` cells whose first `size` digits hold the number `value`.
pub record IsBuffer (cells value : ℕ) (digits : List ℕ) (size : ℕ) : Type 0 where
  pub holds : le_value 58 digits ≡ value
  pub each : All IsDigit digits
  pub room : length digits ≡ cells
  pub clean : Clean size digits
  pub within : size ≤ cells

pub zeroes-IsDigit : (n : ℕ) → All IsDigit (replicate n 0)
zeroes-IsDigit zero = tt
zeroes-IsDigit (suc n) = (omega arith, zeroes-IsDigit n)

pub empty-IsBuffer : (cells : ℕ) → IsBuffer cells 0 (replicate cells 0) 0
empty-IsBuffer cells = record {
  holds = le_value-replicate 58 cells;
  each = zeroes-IsDigit cells;
  room = length-replicate cells 0;
  clean = Clean-replicate 0 cells;
  within = omega arith;
}

no_carry : (c p v : ℕ) → v + c * p < p → c ≡ 0
no_carry zero p v h = refl
no_carry (suc c) p v h = absurd (grind arith)

-- A byte goes into a buffer with room for the result, with no carry left.
pub add_byte-IsBuffer :
    (cells value byte : ℕ) (digits : List ℕ) (size : ℕ)
    → byte < 256
    → value * 256 + byte < 58 ^ cells
    → IsBuffer cells value digits size
    → ((add_byte digits byte size 0).carry ≡ 0)
      × IsBuffer cells
          (value * 256 + byte)
          (add_byte digits byte size 0).digits
          (add_byte digits byte size 0).processed
add_byte-IsBuffer cells value byte digits size hb fits b =
    let same : size - 0 ≡ size = omega arith in
    let added = add_byte-IsAdded digits byte size 0 hb b.each (rw same b.clean) in
    let r = add_byte digits byte size 0 in
    let total : le_value 58 r.digits + r.carry * 58 ^ cells ≡ value * 256 + byte =
      omega (arith, rw (b.room, b.holds) at added.value) in
    let none_left : r.carry ≡ 0 =
      no_carry r.carry (58 ^ cells) (le_value 58 r.digits) (omega arith) in
    let whole : r.processed - 0 ≡ r.processed = omega arith in
    (
      none_left,
      record {
        holds = omega (arith, total, ap (λ (t : ℕ). t * 58 ^ cells) none_left);
        each = added.digits;
        room = added.cells ∙ b.room;
        clean = rw whole at added.clean;
        within = omega (arith, added.within, b.room);
      },
    )

-- The bytes of an input, one after the other.
encode_loop-IsBuffer :
    (bytes : List ℕ) (cells value : ℕ) (digits : List ℕ) (size : ℕ)
    → All IsByte bytes
    → be_value 256 value bytes < 58 ^ cells
    → IsBuffer cells value digits size
    → (digits' : List ℕ) × (size' : ℕ) × (encode_loop bytes digits size ≡ ok (digits', size'))
      × IsBuffer cells (be_value 256 value bytes) digits' size'
unfolding encode_loop
encode_loop-IsBuffer [] cells value digits size hb fits b = (digits, size, refl, b)
encode_loop-IsBuffer (byte ∷ bytes) cells value digits size hb fits b =
    let weight : 1 ≤ 256 ^ length bytes = one-le-pow (length bytes) 256 (omega arith) in
    let grows : value * 256 + byte ≤ (value * 256 + byte) * 256 ^ length bytes = grind arith in
    let small : value * 256 + byte < 58 ^ cells =
      omega (arith, be_value-acc 256 (value * 256 + byte) bytes) in
    let (none_left, b') = add_byte-IsBuffer cells value byte digits size hb.0 small b in
    let (digits', size', runs, b'') =
      encode_loop-IsBuffer bytes cells (value * 256 + byte) _ _ hb.1 fits b' in
    (digits', size', rw none_left runs, b'')

pub Clean-take : (n : ℕ) (ds : List ℕ) → Clean n ds → le_value 58 (take n ds) ≡ le_value 58 ds
Clean-take zero [] h = refl
Clean-take (suc n) [] h = refl
Clean-take zero (d ∷ ds) h = omega (arith, h.0, Clean-take zero ds h.1)
Clean-take (suc n) (d ∷ ds) h = omega (arith, ap (λ (t : ℕ). 58 * t) (Clean-take n ds h))

pub All-reverse : (ds : List ℕ) → All IsDigit ds → All IsDigit (reverse ds)
All-reverse [] h = tt
All-reverse (d ∷ ds) h =
    rw reverse-cons (All-append IsDigit (reverse ds) (d ∷ []) (All-reverse ds h.1) (h.0, tt))

leading_zeroes-split :
    (input : List ℕ)
    → input ≡ replicate (leading_zeroes input) 0 ++ drop (leading_zeroes input) input
unfolding leading_zeroes
leading_zeroes-split [] = refl
leading_zeroes-split (b ∷ input) = ground (arith, leading_zeroes-split input)

-- The number of the digits behind the leading zeroes is that of the whole input.
drop-zeroes-value :
    (input : List ℕ) → be_value 256 0 (drop (leading_zeroes input) input) ≡ be_value 256 0 input
drop-zeroes-value input = sym (
    ap (be_value 256 0) (leading_zeroes-split input)
    ∙ be_value-zeroes 256 (leading_zeroes input) (drop (leading_zeroes input) input))

-- The loop over an input ends with every digit in the buffer.
pub encode_loop-total :
    (input : List ℕ)
    → All IsByte input
    → (digits : List ℕ) × (size : ℕ) × (encode_loop
          (drop (leading_zeroes input) input)
          (replicate (buffer_size (length input - leading_zeroes input)) 0)
          0
        ≡ ok (digits, size))
      × IsBuffer
          (buffer_size (length input - leading_zeroes input))
          (be_value 256 0 input)
          digits
          size
encode_loop-total input h =
    let zeroes = leading_zeroes input in
    let rest = drop zeroes input in
    let each = All-drop IsByte zeroes input h in
    let cells = buffer_size (length input - zeroes) in
    let fits : be_value 256 0 rest < 58 ^ cells = omega (
      arith,
      rw (length-drop zeroes input) at (be_value-lt 256 rest each),
      buffer_size-room (length input - zeroes),
    ) in
    let (digits, size, runs, b) =
      encode_loop-IsBuffer rest cells 0 (replicate cells 0) 0 each fits (empty-IsBuffer cells) in
    (digits, size, runs, subst (λ v. IsBuffer cells v digits size) (drop-zeroes-value input) b)

-- Every input is encoded: no buffer overflows. The text is a '1' for each leading zero byte, and
-- then base-58 digits that stand for the number of the input.
pub base58_encode-value :
    (input : List ℕ)
    → All IsByte input
    → (digits : List ℕ) × (base58_encode input
        ≡ ok (replicate (leading_zeroes input) b'1' ++ map alphabet_at digits))
      × All IsDigit digits
      × (be_value 58 0 digits ≡ be_value 256 0 input)
unfolding base58_encode base58_text
base58_encode-value input h =
    let (digits, size, runs, b) = encode_loop-total input h in
    (
      reverse (take size digits),
      rw runs,
      All-reverse (take size digits) (All-take IsDigit size digits b.each),
      be_value-reverse 58 (take size digits) ∙ Clean-take size digits b.clean ∙ b.holds,
    )
