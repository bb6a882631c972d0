-- ===== src/Kernels/Step.antt =====
-- A step of `chained_search_kernel` of native/src/cuda_runtime.cu, with its one inversion.
use tron_wallet_searcher.Common.{
  ℕ, ◌*◌, ◌≡◌, refl, ap, ap₂, ◌∙◌, List, [], ◌∷◌, map, All, true, false, ◌==◌, ==_iff, arith,
  Bool-cases, inl, inr, replicate,
}
use tron_wallet_searcher.Chain.{field_is_zero, field_equal, field_subtract, or_limbs}
use tron_wallet_searcher.Chain.Limbs.{value}
use tron_wallet_searcher.Chain.Arithmetic.{
  IsReduced, field_is_zero_lem, field_equal_lem, field_subtract-Represents,
}
use tron_wallet_searcher.Chain.Curve.{Point, point_add, field_inverse}
use tron_wallet_searcher.Chain.Batch.{
  IsInvertible, inverse_or_zero, field_inverse_batch-eq-field_inverse,
}
use tron_wallet_searcher.Kernels.Grid.{delta_x, advance_point, advance_points, advance_chains}

-- What a step needs of a point: its `x` is below the prime, and so is the difference to the stride,
-- whose inverse is one.
abbrev pub CanAdvance : Point → Point → Type 0
CanAdvance stride_point point = IsReduced point.x × IsInvertible (delta_x stride_point point)

zeroes_are_zero : field_is_zero (replicate 4 0) ≡ true
unfolding field_is_zero or_limbs
zeroes_are_zero = refl

-- An inverse is not zero.
inverse_nonzero :
    (limbs : List ℕ)
    → IsInvertible limbs
    → field_is_zero limbs ≡ false
    → field_is_zero (field_inverse limbs) ≡ false
inverse_nonzero limbs (h, unit) f = elim (Bool-cases (value (field_inverse limbs) == 0)) [
  | inl t ↦
      let none = (==_iff (value (field_inverse limbs)) 0).0 t in
      let one = unit f in absurd (omega (arith, one, ap (λ (k : ℕ). k * value limbs) none))
  | inr g ↦ field_is_zero_lem (field_inverse limbs) ∙ g
]

-- Points of a difference that is not zero are not of one `x`.
apart :
    (xs ys : List ℕ)
    → IsReduced xs
    → IsReduced ys
    → field_is_zero (field_subtract ys xs) ≡ false
    → field_equal xs ys ≡ false
apart xs ys h k f = elim (Bool-cases (value xs == value ys)) [
  | inl t ↦
      let same = (==_iff (value xs) (value ys)).0 t in
      let difference = (field_subtract-Represents ys xs k h).1 in
      let none : value (field_subtract ys xs) ≡ 0 = omega (arith, difference, same, h.1) in
      let is_zero = field_is_zero_lem (field_subtract ys xs) in
      absurd (ground (arith, is_zero, none, f))
  | inr g ↦ field_equal_lem xs ys h k ∙ g
]

advance_point-eq :
    (stride_point point : Point)
    → stride_point.infinity ≡ false
    → IsReduced stride_point.x
    → CanAdvance stride_point point
    → advance_point stride_point point (inverse_or_zero (delta_x stride_point point))
      ≡ point_add point stride_point
unfolding advance_point delta_x point_add
advance_point-eq stride_point point finite h (k, invertible) = elim (Bool-cases point.infinity) [
  | inl t ↦ rw (advance_point, point_add, t) refl
  | inr f ↦
      let delta = field_subtract stride_point.x point.x in
      let here = rw (delta_x, f) at invertible in
      elim (Bool-cases (field_is_zero delta)) [
        | inl t ↦ rw (advance_point, delta_x, f, t, zeroes_are_zero) refl
        | inr g ↦
            let nonzero = inverse_nonzero delta here g in
            let differ = apart point.x stride_point.x k h g in
            rw (advance_point, delta_x, point_add, f, g, nonzero, differ, finite) refl
      ]
]

deltas-IsInvertible :
    (stride_point : Point) (points : List Point)
    → All (CanAdvance stride_point) points
    → All IsInvertible (map (delta_x stride_point) points)
deltas-IsInvertible stride_point [] h = tt
deltas-IsInvertible stride_point (point ∷ points) h =
    (h.0.1, deltas-IsInvertible stride_point points h.1)

advance_points-eq :
    (stride_point : Point) (points : List Point)
    → stride_point.infinity ≡ false
    → IsReduced stride_point.x
    → All (CanAdvance stride_point) points
    → advance_points stride_point points (map inverse_or_zero (map (delta_x stride_point) points))
      ≡ map (λ point. point_add point stride_point) points
unfolding advance_points
advance_points-eq stride_point [] finite h k = refl
advance_points-eq stride_point (point ∷ points) finite h k =
    ap₂ (λ p ps. p ∷ ps) (advance_point-eq stride_point point finite h k.0)
      (advance_points-eq stride_point points finite h k.1)

-- When the stride is finite and below the prime, and every chain's difference to it has an inverse,
-- a step with its one inversion moves each chain to the `point_add` of its point and the stride.
pub advance_chains-eq-point_add :
    (stride_point : Point) (points : List Point)
    → stride_point.infinity ≡ false
    → IsReduced stride_point.x
    → All (CanAdvance stride_point) points
    → advance_chains stride_point points ≡ map (λ point. point_add point stride_point) points
unfolding advance_chains
advance_chains-eq-point_add stride_point points finite h k =
    let deltas = map (delta_x stride_point) points in
    ap (advance_points stride_point points)
      (field_inverse_batch-eq-field_inverse deltas (deltas-IsInvertible stride_point points k))
    ∙ advance_points-eq stride_point points finite h k
