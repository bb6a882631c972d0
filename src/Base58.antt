-- ===== src/Base58.antt =====
-- Base58: `base58_encode` of native/src/tron.cpp and the device copy `device_base58_25` of
-- native/src/cuda_runtime.cu. The working buffer `digits` is listed in the order of `rbegin`, its
-- last cell first, which is the order in which both loops go through it.
pub mod Value
pub mod Carry
pub mod Room
pub mod Encode
pub mod Canonical
pub mod Device
mod Tests
use tron_wallet_searcher.Common.{
  ℕ, suc, ◌+◌, ◌-◌, ◌*◌, ◌/◌, ◌%◌, List, [], ◌∷◌, ◌++◌, map, reverse, Bool, ◌&&◌, ◌||◌, not, ◌==◌,
  ltb, if◌then◌else◌, length, get_or, take, drop, replicate, Result, ok, err, Exception,
  runtime_error, ◌>>=◌, ◌>>◌, throw_if, text,
}
use tron_wallet_searcher.Common.Words.{u8, u32}

unfoldable pub base58_alphabet : List ℕ
base58_alphabet = text "123456789ABCDEFGHJKLMNPQRSTUVWXYZabcdefghijkmnopqrstuvwxyz"

unfoldable pub alphabet_at : ℕ → ℕ
alphabet_at digit = get_or base58_alphabet digit 0

abbrev pub buffer_overflow : Exception
buffer_overflow = runtime_error (text "Base58 conversion overflowed its working buffer.")

unfoldable pub leading_zeroes : List ℕ → ℕ
leading_zeroes [] = 0
leading_zeroes (b ∷ bytes) = if b == 0 then suc (leading_zeroes bytes) else 0

-- The state when the inner loop ends.
pub record Added : Type 0 where
  pub digits : List ℕ
  pub carry : ℕ
  pub processed : ℕ

-- The inner loop, at the cells that are left: digits * 256 + carry. It goes on while there is a
-- carry or the digits so far (`size` of them) are not all processed, until the buffer ends.
unfoldable pub add_byte : List ℕ → ℕ → ℕ → ℕ → Added
add_byte [] carry size processed = record { digits = []; carry = carry; processed = processed }
add_byte (d ∷ ds) carry size processed =
    let sum = u32 (carry + 256 * d) in
    let rest = add_byte ds (sum / 58) size (processed + 1) in
    if not (carry == 0) || ltb processed size
    then record rest { digits = u8 (sum % 58) ∷ rest.digits }
    else record { digits = d ∷ ds; carry = carry; processed = processed }

-- The outer loop over the bytes behind the leading zeroes.
unfoldable pub encode_loop : List ℕ → List ℕ → ℕ → Result (List ℕ × ℕ)
encode_loop [] digits size = ok (digits, size)
encode_loop (byte ∷ bytes) digits size = do
  let added = add_byte digits byte size 0
  throw_if (not (added.carry == 0)) buffer_overflow
  encode_loop bytes added.digits added.processed

-- The text: a '1' for each leading zero, and the digits from the most significant one on.
unfoldable pub base58_text : ℕ → List ℕ → ℕ → List ℕ
base58_text zeroes digits size =
    replicate zeroes b'1' ++ map alphabet_at (reverse (take size digits))

-- The size of the working buffer.
abbrev pub buffer_size : ℕ → ℕ
buffer_size n = n * 138 / 100 + 1

unfoldable pub base58_encode : List ℕ → Result (List ℕ)
base58_encode input = do
  let zeroes = leading_zeroes input
  (digits, size) ←
      encode_loop (drop zeroes input) (replicate (buffer_size (length input - zeroes)) 0) 0
  ok (base58_text zeroes digits size)

-- The device code has a buffer of 40 cells and does not look at the last carry.
unfoldable pub device_encode_loop : List ℕ → List ℕ → ℕ → List ℕ × ℕ
device_encode_loop [] digits size = (digits, size)
device_encode_loop (byte ∷ bytes) digits size =
    let added = add_byte digits byte size 0 in device_encode_loop bytes added.digits added.processed

-- What it writes, the final NUL included.
unfoldable pub device_base58_25 : List ℕ → List ℕ
device_base58_25 input =
    let zeroes = leading_zeroes input in
    let (digits, size) = device_encode_loop (drop zeroes input) (replicate 40 0) 0 in
    base58_text zeroes digits size ++ 0 ∷ []
