-- ===== src/Secp/Curve.antt =====
-- Inversion, points, batches and bytes of native/src/cuda_secp.cuh, and the conversion of its points
-- to those of native/src/cuda_chain.cuh.
use tron_wallet_searcher.Common.{
  ℕ, zero, suc, ◌+◌, ◌-◌, ◌*◌, ◌/◌, ◌%◌, ◌^◌, List, [], ◌∷◌, ◌++◌, map, Bool, true, false, not,
  ◌==◌, ◌||◌, if◌then◌else◌, get_or, replicate, bit_or,
}
use tron_wallet_searcher.Common.Words.{u8, u32}
use tron_wallet_searcher.Secp.{
  field_is_zero, field_equal, field_negate, field_subtract, field_multiply, field_square,
  field_from_small,
}
use tron_wallet_searcher.Chain.Curve.{Point, from_legacy_field}

pub record AffinePoint : Type 0 where
  pub x : List ℕ
  pub y : List ℕ
  pub infinity : Bool

-- `AffinePoint{}`.
abbrev pub nowhere : AffinePoint
nowhere = record { x = replicate 8 0; y = replicate 8 0; infinity = true }

-- A bit of the prime less two.
abbrev pub exponent_bit : ℕ → ℕ
exponent_bit bit =
    let limb = bit / 32 in
    let exponent_limb =
      if limb == 0 then 0xfffffc2d else if limb == 1 then 0xfffffffe else 0xffffffff in
    exponent_limb / 2 ^ (bit % 32) % 2

-- The rounds from the highest bit down; `rounds` of them are left.
unfoldable pub inverse_rounds : ℕ → List ℕ → List ℕ → List ℕ
inverse_rounds zero value result = result
inverse_rounds (suc bit) value result =
    let squared = field_square result in
    let next = if not (exponent_bit bit == 0) then field_multiply squared value else squared in
    inverse_rounds bit value next

unfoldable pub field_inverse : List ℕ → List ℕ
field_inverse value = inverse_rounds 256 value (field_from_small 1)

unfoldable pub point_double : AffinePoint → AffinePoint
point_double point =
    if point.infinity || field_is_zero point.y
    then nowhere
    else (let x_squared = field_square point.x in
        let numerator = field_multiply (field_from_small 3) x_squared in
        let denominator = field_multiply (field_from_small 2) point.y in
        let slope = field_multiply numerator (field_inverse denominator) in
        let x_output =
          field_subtract (field_square slope) (field_multiply (field_from_small 2) point.x) in
        let y_output =
          field_subtract (field_multiply slope (field_subtract point.x x_output)) point.y in
        record { x = x_output; y = y_output; infinity = false })

unfoldable pub point_add_with_inverse : AffinePoint → AffinePoint → List ℕ → AffinePoint
point_add_with_inverse left right inverse_denominator =
    let slope = field_multiply (field_subtract right.y left.y) inverse_denominator in
    let x_output = field_subtract (field_subtract (field_square slope) left.x) right.x in
    let y_output = field_subtract (field_multiply slope (field_subtract left.x x_output)) left.y in
    record { x = x_output; y = y_output; infinity = false }

-- The last lines are those of `point_add_with_inverse`, with the inverse that they compute.
unfoldable pub point_add : AffinePoint → AffinePoint → AffinePoint
unfolding point_add_with_inverse
point_add left right =
    if left.infinity
    then right
    else if right.infinity
    then left
    else if field_equal left.x right.x
    then (if field_equal left.y right.y then point_double left else nowhere)
    else point_add_with_inverse left right (field_inverse (field_subtract right.x left.x))

-- `field_is_zero(denominator) ? field_from_small(1) : denominator`
abbrev pub nonzero_factor : List ℕ → List ℕ
nonzero_factor denominator = if field_is_zero denominator then field_from_small 1 else denominator

abbrev pub negative_table : AffinePoint → AffinePoint
negative_table point = record { x = point.x; y = field_negate point.y; infinity = false }

-- The first loop: the prefixes of the product, and the product.
unfoldable pub batch_prefixes : AffinePoint → List AffinePoint → List ℕ → List (List ℕ) × List ℕ
batch_prefixes center [] product = ([], product)
batch_prefixes center (entry ∷ table) product =
    let next = field_multiply product (nonzero_factor (field_subtract entry.x center.x)) in
    let (prefixes, last) = batch_prefixes center table next in (next ∷ prefixes, last)

-- The second loop, from the last index down: the negative and the positive point of each entry, and
-- the inverse of the product before them.
unfoldable pub batch_points :
    AffinePoint
    → List AffinePoint
    → List (List ℕ)
    → List ℕ
    → List (AffinePoint × AffinePoint) × List ℕ
batch_points center [] prefixes inverse_product = ([], inverse_product)
batch_points center (entry ∷ table) [] inverse_product = ([], inverse_product)
batch_points center (entry ∷ table) (previous_product ∷ prefixes) inverse_product =
    let (points, reached) = batch_points center table prefixes inverse_product in
    let denominator = field_subtract entry.x center.x in
    let denominator_inverse = field_multiply reached previous_product in
    if field_is_zero denominator
    then ((point_add center (negative_table entry), point_add center entry) ∷ points, reached)
    else (
      (
        point_add_with_inverse center (negative_table entry) denominator_inverse,
        point_add_with_inverse center entry denominator_inverse,
      )
          ∷ points,
      field_multiply reached denominator,
    )

unfoldable pub generate_symmetric_batch :
    AffinePoint → List AffinePoint → List (AffinePoint × AffinePoint)
generate_symmetric_batch center table =
    let (prefixes, product) = batch_prefixes center table (field_from_small 1) in
    (batch_points center table (field_from_small 1 ∷ prefixes) (field_inverse product)).0

-- A limb is read from the four bytes at `28 - limb * 4`.
unfoldable pub field_from_big_endian : List ℕ → List ℕ
field_from_big_endian input =
    map
      (λ limb.
        let offset = 28 - limb * 4 in
        bit_or
          (bit_or
            (bit_or (u32 (get_or input offset 0 * 2 ^ 24))
              (u32 (get_or input (offset + 1) 0 * 2 ^ 16)))
            (u32 (get_or input (offset + 2) 0 * 2 ^ 8)))
          (get_or input (offset + 3) 0))
      (0 ∷ 1 ∷ 2 ∷ 3 ∷ 4 ∷ 5 ∷ 6 ∷ 7 ∷ [])

-- A limb is written to the four bytes at `28 - limb * 4`: those of a higher limb come before.
unfoldable pub field_to_big_endian : List ℕ → List ℕ
field_to_big_endian [] = []
field_to_big_endian (limb ∷ limbs) =
    field_to_big_endian limbs
    ++ u8 (limb / 2 ^ 24) ∷ u8 (limb / 2 ^ 16) ∷ u8 (limb / 2 ^ 8) ∷ u8 limb ∷ []

abbrev pub generator_x : List ℕ
generator_x =
    0x79 ∷ 0xbe ∷ 0x66 ∷ 0x7e ∷ 0xf9 ∷ 0xdc ∷ 0xbb ∷ 0xac ∷ 0x55 ∷ 0xa0 ∷ 0x62 ∷ 0x95 ∷ 0xce ∷ 0x87
    ∷ 0x0b ∷ 0x07 ∷ 0x02 ∷ 0x9b ∷ 0xfc ∷ 0xdb ∷ 0x2d ∷ 0xce ∷ 0x28 ∷ 0xd9 ∷ 0x59 ∷ 0xf2 ∷ 0x81
    ∷ 0x5b ∷ 0x16 ∷ 0xf8 ∷ 0x17 ∷ 0x98 ∷ []

abbrev pub generator_y : List ℕ
generator_y =
    0x48 ∷ 0x3a ∷ 0xda ∷ 0x77 ∷ 0x26 ∷ 0xa3 ∷ 0xc4 ∷ 0x65 ∷ 0x5d ∷ 0xa4 ∷ 0xfb ∷ 0xfc ∷ 0x0e ∷ 0x11
    ∷ 0x08 ∷ 0xa8 ∷ 0xfd ∷ 0x17 ∷ 0xb4 ∷ 0x48 ∷ 0xa6 ∷ 0x85 ∷ 0x54 ∷ 0x19 ∷ 0x9c ∷ 0x47 ∷ 0xd0
    ∷ 0x8f ∷ 0xfb ∷ 0x10 ∷ 0xd4 ∷ 0xb8 ∷ []

unfoldable pub generator_point : AffinePoint
generator_point = record {
  x = field_from_big_endian generator_x;
  y = field_from_big_endian generator_y;
  infinity = false;
}

-- The loop ends with the scalar, which halves: 64 rounds are enough for 64 bits.
unfoldable pub scalar_loop : ℕ → ℕ → AffinePoint → AffinePoint → AffinePoint
scalar_loop zero scalar result addend = result
scalar_loop (suc rounds) zero result addend = result
scalar_loop (suc rounds) (suc n) result addend =
    let scalar = suc n in
    let next = if not (scalar % 2 == 0) then point_add result addend else result in
    let halved = scalar / 2 in
    let doubled = if not (halved == 0) then point_double addend else addend in
    scalar_loop rounds halved next doubled

unfoldable pub scalar_multiply_u64 : ℕ → AffinePoint
scalar_multiply_u64 scalar = scalar_loop 64 scalar nowhere generator_point

unfoldable pub point_to_public_key : AffinePoint → List ℕ
point_to_public_key point = field_to_big_endian point.x ++ field_to_big_endian point.y

unfoldable pub from_legacy_point : AffinePoint → Point
from_legacy_point value = record {
  x = from_legacy_field value.x;
  y = from_legacy_field value.y;
  infinity = value.infinity;
}
