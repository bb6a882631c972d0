-- ===== src/Chain/Curve.antt =====
-- Inversion, points and bytes of native/src/cuda_chain.cuh, and the conversion of bytes on the host,
-- `host_chain_field_from_big_endian` of native/src/cuda_runtime.cu. A point is a record of its
-- coordinates; `field_inverse_batch` returns the array that it overwrites.
use tron_wallet_searcher.Common.{
  ℕ, zero, suc, ◌+◌, ◌-◌, ◌*◌, ◌/◌, ◌%◌, ◌^◌, List, [], ◌∷◌, ◌++◌, map, Bool, true, false, not,
  ◌==◌, ◌||◌, if◌then◌else◌, get_or, replicate, bit_or, take, drop,
}
use tron_wallet_searcher.Common.Words.{u8, u64}
use tron_wallet_searcher.Chain.{
  field_is_zero, field_equal, field_subtract, field_multiply, field_square, field_from_small,
}

-- The exponent of the inversion: the prime less two.
abbrev pub exponent : List ℕ
exponent = 0xfffffffefffffc2d ∷ 0xffffffffffffffff ∷ 0xffffffffffffffff ∷ 0xffffffffffffffff ∷ []

abbrev pub exponent_bit : ℕ → ℕ
exponent_bit bit_index = get_or exponent (bit_index / 64) 0 / 2 ^ (bit_index % 64) % 2

unfoldable pub inverse_loop : ℕ → ℕ → List ℕ → List ℕ → List ℕ
inverse_loop zero bit_index result base = result
inverse_loop (suc rounds) bit_index result base =
    let next = if not (exponent_bit bit_index == 0) then field_multiply result base else result in
    inverse_loop rounds (bit_index + 1) next (field_square base)

unfoldable pub field_inverse : List ℕ → List ℕ
field_inverse value = inverse_loop 256 0 (field_from_small 1) value

pub record Point : Type 0 where
  pub x : List ℕ
  pub y : List ℕ
  pub infinity : Bool

-- `Point{}`.
abbrev pub zero_point : Point
zero_point = record { x = replicate 4 0; y = replicate 4 0; infinity = true }

unfoldable pub point_double : Point → Point
point_double point =
    if point.infinity || field_is_zero point.y
    then zero_point
    else (let numerator = field_multiply (field_from_small 3) (field_square point.x) in
        let denominator = field_multiply (field_from_small 2) point.y in
        let slope = field_multiply numerator (field_inverse denominator) in
        let output_x =
          field_subtract (field_square slope) (field_multiply (field_from_small 2) point.x) in
        let output_y =
          field_subtract (field_multiply slope (field_subtract point.x output_x)) point.y in
        record { x = output_x; y = output_y; infinity = false })

-- The sum of two points of different `x`, with the inverse of the difference.
abbrev pub chord : Point → Point → List ℕ → Point
chord left right inverse =
    let slope = field_multiply (field_subtract right.y left.y) inverse in
    let output_x = field_subtract (field_subtract (field_square slope) left.x) right.x in
    let output_y = field_subtract (field_multiply slope (field_subtract left.x output_x)) left.y in
    record { x = output_x; y = output_y; infinity = false }

unfoldable pub point_add : Point → Point → Point
point_add left right =
    if left.infinity
    then right
    else if right.infinity
    then left
    else if field_equal left.x right.x
    then (if field_equal left.y right.y then point_double left else zero_point)
    else chord left right (field_inverse (field_subtract right.x left.x))

-- `zeroes[index] ? field_from_small(1) : values[index]`
abbrev pub factor_of : List ℕ → List ℕ
factor_of value = if field_is_zero value then field_from_small 1 else value

-- The first loop: `prefixes`, and the product that it ends with.
unfoldable pub prefix_products : List (List ℕ) → List ℕ → List (List ℕ) × List ℕ
prefix_products [] product = ([], product)
prefix_products (value ∷ values) product =
    let next = field_multiply product (factor_of value) in
    let (prefixes, last) = prefix_products values next in (next ∷ prefixes, last)

-- The second loop, from the last index down: the values before it is at an index are those that it
-- has not reached. `previous` is the prefix before each value.
unfoldable pub invert_back : List (List ℕ) → List (List ℕ) → List ℕ → List (List ℕ) × List ℕ
invert_back [] previous inverse = ([], inverse)
invert_back (value ∷ values) [] inverse = ([], inverse)
invert_back (value ∷ values) (previous ∷ prefixes) inverse =
    let (outputs, reached) = invert_back values prefixes inverse in
    let value_inverse = field_multiply reached previous in
    (
      (if field_is_zero value then replicate 4 0 else value_inverse) ∷ outputs,
      field_multiply reached (factor_of value),
    )

unfoldable pub field_inverse_batch : List (List ℕ) → List (List ℕ)
field_inverse_batch values =
    let (prefixes, product) = prefix_products values (field_from_small 1) in
    (invert_back values (field_from_small 1 ∷ prefixes) (field_inverse product)).0

-- Two limbs of 32 bits make one of 64.
unfoldable pub from_legacy_field : List ℕ → List ℕ
from_legacy_field [] = []
from_legacy_field (low ∷ []) = []
from_legacy_field (low ∷ high ∷ rest) = bit_or low (u64 (high * 2 ^ 32)) ∷ from_legacy_field rest

-- The eight bytes of a word, `word >> (56 - byte * 8)`.
unfoldable pub word_to_big_endian : ℕ → List ℕ
word_to_big_endian word =
    map (λ byte. u8 (word / 2 ^ (56 - byte * 8))) (0 ∷ 1 ∷ 2 ∷ 3 ∷ 4 ∷ 5 ∷ 6 ∷ 7 ∷ [])

-- The bytes of the limbs behind a limb come before its own.
unfoldable pub field_to_big_endian : List ℕ → List ℕ
field_to_big_endian [] = []
field_to_big_endian (limb ∷ limbs) = field_to_big_endian limbs ++ word_to_big_endian limb

unfoldable pub point_to_public_key : Point → List ℕ
point_to_public_key point = field_to_big_endian point.x ++ field_to_big_endian point.y

-- `value = (value << 8) | input[...]` over eight bytes.
unfoldable pub word_from_big_endian : List ℕ → ℕ → ℕ
word_from_big_endian [] value = value
word_from_big_endian (byte ∷ bytes) value =
    word_from_big_endian bytes (bit_or (u64 (value * 2 ^ 8)) byte)

-- The limb that is written last stands first.
unfoldable pub host_chain_field_from_big_endian : List ℕ → List ℕ
host_chain_field_from_big_endian input =
    map (λ limb. word_from_big_endian (take 8 (drop ((3 - limb) * 8) input)) 0) (0 ∷ 1 ∷ 2 ∷ 3 ∷ [])
