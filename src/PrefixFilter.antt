-- ===== src/PrefixFilter.antt =====
-- The prefix prefilter of native/src/cuda_runtime.cu. The host turns a requested prefix into
-- intervals of 21-byte payloads (`host_base58_digit` to `populate_prefix_intervals`); the device
-- skips a candidate whose payload lies in none (`device_payload_may_match_prefix`).
-- A `HostBase58Integer` is a list of 25 bytes, the most significant first.
pub mod Integer
pub mod Decode
pub mod Compare
pub mod Bound
pub mod Variants
pub mod Written
pub mod Rows
pub mod Sound
mod Tests
use Prim.Native.Nat.{Ordering}
use tron_wallet_searcher.Common.{
  ℕ, zero, suc, ◌+◌, ◌-◌, ◌*◌, ◌/◌, ◌%◌, ◌^◌, List, [], ◌∷◌, ◌++◌, Bool, true, false, ◌&&◌, not,
  ◌==◌, ltb, leb, if◌then◌else◌, length, get_or, set, take, drop, replicate, Option, none, some,
  Result, ok, err, Exception, invalid_argument, overflow_error, underflow_error, ◌>>=◌, ◌>>◌,
  throw_if, text,
}
use tron_wallet_searcher.Common.Words.{u8, u32}
use tron_wallet_searcher.Base58.{base58_alphabet}
use tron_wallet_searcher.Pattern.{contains}

-- `alphabet.find(value)`.
unfoldable pub find : List ℕ → ℕ → Option ℕ
find [] c = none
find (x ∷ xs) c =
    if x == c then some 0 else elim (find xs c) [ none ↦ none | some i ↦ some (suc i) ]

abbrev pub outside_alphabet : Exception
outside_alphabet =
    invalid_argument (text "Prefix contains a character outside the Base58 alphabet.")

abbrev pub exceeded : Exception
exceeded = overflow_error (text "Base58 prefix bound exceeded 25 bytes.")

abbrev pub below_zero : Exception
below_zero = underflow_error (text "Cannot subtract from a zero Base58 bound.")

unfoldable pub host_base58_digit : ℕ → Result ℕ
host_base58_digit value = elim (find base58_alphabet value) [
  | none ↦ err outside_alphabet
  | some index ↦ ok index
]

-- The loops go from the last byte to the first: what is left of the list is done before its head.
unfoldable pub multiply_loop : List ℕ → ℕ → List ℕ × ℕ
multiply_loop [] multiplier = ([], 0)
multiply_loop (x ∷ xs) multiplier =
    let (ys, carry) = multiply_loop xs multiplier in
    let product = u32 (x * multiplier + carry) in (u8 product ∷ ys, product / 256)

unfoldable pub host_multiply_small : List ℕ → ℕ → Result (List ℕ)
host_multiply_small value multiplier =
    let (result, carry) = multiply_loop value multiplier in
    if not (carry == 0) then err exceeded else ok result

unfoldable pub add_loop : List ℕ → ℕ → List ℕ × ℕ
add_loop [] addend = ([], addend)
add_loop (x ∷ xs) addend =
    let (ys, carry) = add_loop xs addend in
    let sum = u32 (x + carry) in if carry == 0 then (x ∷ ys, 0) else (u8 sum ∷ ys, sum / 256)

unfoldable pub host_add_small : List ℕ → ℕ → Result (List ℕ)
host_add_small value addend =
    let (result, carry) = add_loop value addend in
    if not (carry == 0) then err exceeded else ok result

-- `true` while the borrow goes on.
unfoldable pub subtract_loop : List ℕ → List ℕ × Bool
subtract_loop [] = ([], true)
subtract_loop (x ∷ xs) =
    let (ys, borrow) = subtract_loop xs in
    if borrow
    then if not (x == 0) then ((x - 1) ∷ ys, false) else (0xff ∷ ys, true)
    else (x ∷ ys, false)

unfoldable pub host_subtract_one : List ℕ → Result (List ℕ)
host_subtract_one value =
    let (result, borrow) = subtract_loop value in if borrow then err below_zero else ok result

-- The loop over the characters, from the number of those before.
unfoldable pub decode_loop : List ℕ → List ℕ → Result (List ℕ)
decode_loop [] value = ok value
decode_loop (character ∷ rest) value = do
  shifted ← host_multiply_small value 58
  digit ← host_base58_digit character
  sum ← host_add_small shifted digit
  decode_loop rest sum

unfoldable pub zero_integer : List ℕ
zero_integer = replicate 25 0

unfoldable pub host_decode_base58 : List ℕ → Result (List ℕ)
host_decode_base58 encoded = decode_loop encoded zero_integer

unfoldable pub shift_places : ℕ → List ℕ → Result (List ℕ)
shift_places zero value = ok value
shift_places (suc remaining) value = do
  shifted ← host_multiply_small value 58
  shift_places remaining shifted

-- `remaining` is an int; a negative count makes no round.
unfoldable pub host_prefix_bound : List ℕ → Bool → Result (List ℕ)
host_prefix_bound address_prefix upper = do
  value ← decode_loop address_prefix zero_integer
  above ← if upper then host_add_small value 1 else ok value
  shifted ← shift_places (34 - length address_prefix) above
  if upper then host_subtract_one shifted else ok shifted

unfoldable pub host_base58_contains : ℕ → Bool
host_base58_contains value = contains base58_alphabet value

-- The other case of a letter, and any other character itself.
unfoldable pub alternative : ℕ → ℕ
alternative value =
    if leb b'A' value && leb value b'Z'
    then value + 32
    else if leb b'a' value && leb value b'z'
    then value - 32
    else value

-- The places from `index` on where both cases of the letter are Base58 characters. The first
-- character is left out.
unfoldable pub variable_positions : ℕ → List ℕ → List ℕ
variable_positions index [] = []
variable_positions index (value ∷ rest) =
    if not (alternative value == value) && host_base58_contains (alternative value)
    then index ∷ variable_positions (index + 1) rest
    else variable_positions (index + 1) rest

-- What a set bit does to the letter at its place.
unfoldable pub toggle_case : ℕ → ℕ
toggle_case value = if leb b'A' value && leb value b'Z' then value + 32 else value - 32

-- The loop over the bits: `variant >> bit` is shifted once more in each round.
unfoldable pub toggle_bits : ℕ → List ℕ → List ℕ → List ℕ
toggle_bits variant [] actual = actual
toggle_bits variant (position ∷ rest) actual = toggle_bits (variant / 2) rest (
    if variant % 2 == 0
    then actual
    else set actual (position + 1) (toggle_case (get_or actual (position + 1) 0)))

abbrev pub payload_size : ℕ
payload_size = 21

-- The row of `prefix_min` and of `prefix_max` for one spelling of the prefix, T included.
unfoldable pub prefix_interval : List ℕ → Result (List ℕ × List ℕ)
prefix_interval actual_prefix = do
  minimum ← host_prefix_bound actual_prefix false
  maximum ← host_prefix_bound actual_prefix true
  ok (take payload_size minimum, take payload_size maximum)

-- The rows for the variants `variant`, …, `variant + count - 1`.
unfoldable pub variant_intervals : ℕ → ℕ → List ℕ → List ℕ → Result (List (List ℕ × List ℕ))
variant_intervals zero variant positions requested = ok []
variant_intervals (suc count) variant positions requested = do
  row ← prefix_interval (toggle_bits variant positions (b'T' ∷ requested))
  rows ← variant_intervals count (variant + 1) positions requested
  ok (row ∷ rows)

-- The rows in use: `prefix_interval_count` is `1 << variable_count`.
unfoldable pub populate_prefix_intervals : List ℕ → Result (List (List ℕ × List ℕ))
populate_prefix_intervals requested =
    let positions = variable_positions 1 (drop 1 requested) in
    variant_intervals (2 ^ length positions) 0 positions requested

-- Lexicographic: -1, 0 and 1 of the source are `lt`, `eq` and `gt`.
unfoldable pub device_compare_payload : List ℕ → List ℕ → Ordering
device_compare_payload [] right = Ordering.eq
device_compare_payload (x ∷ xs) [] = Ordering.eq
device_compare_payload (x ∷ xs) (y ∷ ys) =
    if ltb x y then Ordering.lt else if ltb y x then Ordering.gt else device_compare_payload xs ys

abbrev pub at_least : Ordering → Bool
at_least Ordering.lt = false
at_least Ordering.eq = true
at_least Ordering.gt = true

abbrev pub at_most : Ordering → Bool
at_most Ordering.lt = true
at_most Ordering.eq = true
at_most Ordering.gt = false

unfoldable pub device_payload_may_match_prefix : List ℕ → List (List ℕ × List ℕ) → Bool
device_payload_may_match_prefix payload [] = false
device_payload_may_match_prefix payload ((minimum, maximum) ∷ rows) =
    if at_least (device_compare_payload payload minimum)
      && at_most (device_compare_payload payload maximum)
    then true
    else device_payload_may_match_prefix payload rows

-- The host's test keeps the two comparisons of a row while it goes through the bytes.
unfoldable pub update_comparison : Ordering → ℕ → ℕ → Ordering
update_comparison Ordering.lt x y = Ordering.lt
update_comparison Ordering.gt x y = Ordering.gt
update_comparison Ordering.eq x y =
    if not (x == y) then if ltb x y then Ordering.lt else Ordering.gt else Ordering.eq

-- The loop over the bytes from `index` on, `count` of them.
unfoldable pub host_compare_row :
    ℕ → ℕ → List ℕ → List ℕ → List ℕ → Ordering → Ordering → Ordering × Ordering
host_compare_row zero index encoded minimum maximum low high = (low, high)
host_compare_row (suc count) index encoded minimum maximum low high =
    host_compare_row count (index + 1) encoded minimum maximum
      (update_comparison low (get_or encoded index 0) (get_or minimum index 0))
      (update_comparison high (get_or encoded index 0) (get_or maximum index 0))

unfoldable pub host_payload_may_match_prefix : List ℕ → List (List ℕ × List ℕ) → Bool
host_payload_may_match_prefix encoded [] = false
host_payload_may_match_prefix encoded ((minimum, maximum) ∷ rows) =
    let (low, high) =
      host_compare_row payload_size 0 encoded minimum maximum Ordering.eq Ordering.eq in
    if at_least low && at_most high then true else host_payload_may_match_prefix encoded rows
