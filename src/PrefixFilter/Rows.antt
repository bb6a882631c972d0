-- ===== src/PrefixFilter/Rows.antt =====
-- The rows of the table of a prefix: `populate_prefix_intervals` of native/src/cuda_runtime.cu.
use native.Mathlib.Nat.{pow-le-pow_right}
use tron_wallet_searcher.Common.{
  ok-injective, ℕ, zero, suc, ◌+◌, ◌-◌, ◌*◌, ◌^◌, ◌≤◌, ◌<◌, ◌≡◌, refl, sym, ap, text, subst, ◌∙◌,
  inl, inr, List, [], ◌∷◌, map, Bool, true, ◌==◌, ==_iff, ◌&&◌, length, length-take, length-map,
  take, drop, All, ok, ◌>>=◌, arith, >>=-eq-ok, length-drop, Bool-cases,
}
use tron_wallet_searcher.Pattern.{contains}
use tron_wallet_searcher.Pattern.Valid.{IsBase58}
use tron_wallet_searcher.Base58.{base58_alphabet, alphabet_at}
use tron_wallet_searcher.Base58.Value.{be_value}
use tron_wallet_searcher.PrefixFilter.Integer.{IsInteger}
use tron_wallet_searcher.Base58.Carry.{IsDigit}
use tron_wallet_searcher.PrefixFilter.{
  variable_positions, toggle_bits, prefix_interval, variant_intervals, populate_prefix_intervals,
  payload_size, at_least, at_most, device_compare_payload, device_payload_may_match_prefix,
}
use tron_wallet_searcher.PrefixFilter.Bound.{lower_bound, upper_bound}
use tron_wallet_searcher.PrefixFilter.Compare.{IsRow}
use tron_wallet_searcher.PrefixFilter.Written.{digits_of, toggle_bits-Written}

-- The row for a text of digits: the first bytes of the bounds.
pub record Interval (digits : List ℕ) (row : List ℕ × List ℕ) : Type 0 where
  pub lower : List ℕ
  pub upper : List ℕ
  pub lower_holds : IsInteger (be_value 58 0 digits * 58 ^ (34 - length digits)) lower
  pub upper_holds : IsInteger (suc (be_value 58 0 digits) * 58 ^ (34 - length digits) - 1) upper
  pub cut : row ≡ (take payload_size lower, take payload_size upper)

pub prefix_interval-Interval :
    (digits : List ℕ)
    → All IsDigit digits
    → length digits ≤ 34
    → (row : List ℕ × List ℕ) × (prefix_interval (map alphabet_at digits) ≡ ok row)
      × Interval digits row
unfolding prefix_interval
prefix_interval-Interval digits each short =
    let (lower, runs, l) = lower_bound digits each short in
    let (upper, runs', u) = upper_bound digits each short in
    (
      (take payload_size lower, take payload_size upper),
      rw (runs, runs') refl,
      record { lower = lower; upper = upper; lower_holds = l; upper_holds = u; cut = refl },
    )

Interval-IsRow : (digits : List ℕ) (row : List ℕ × List ℕ) → Interval digits row → IsRow row
Interval-IsRow digits row r = rw r.cut (
  length-take payload_size r.lower (omega (arith, r.lower_holds.size)),
  length-take payload_size r.upper (omega (arith, r.upper_holds.size)),
)

t_known : IsBase58 b'T'
unfolding contains base58_alphabet text
t_known = refl

-- The row of a variant, which there always is.
variant-IsRow :
    (requested : List ℕ) (w : ℕ)
    → All IsBase58 requested
    → 1 ≤ length requested
    → length requested ≤ 33
    → (row : List ℕ × List ℕ) × (prefix_interval
          (toggle_bits w (variable_positions 1 (drop 1 requested)) (b'T' ∷ requested))
        ≡ ok row)
      × IsRow row
variant-IsRow [] w h some_left short = absurd (omega arith)
variant-IsRow (c ∷ cs) w h some_left short =
    let (ts, spelled, each, size) = toggle_bits-Written cs (b'T' ∷ c ∷ []) w 1 refl h.1 in
    let (digits, digit, whole) = digits_of (b'T' ∷ c ∷ ts) (t_known, (h.0, each)) in
    let sizes : length digits ≡ suc (suc (length ts)) =
      sym (length-map alphabet_at digits) ∙ ap length whole in
    let (row, runs, r) = prefix_interval-Interval digits digit (omega arith) in
    (row, ap prefix_interval (spelled ∙ sym whole) ∙ runs, Interval-IsRow digits row r)

-- Whether a payload lies in a row.
unfoldable pub in_row : List ℕ → List ℕ × List ℕ → Bool
in_row payload (minimum, maximum) =
    at_least (device_compare_payload payload minimum)
    && at_most (device_compare_payload payload maximum)

-- The rows are filled without an exception.
variant_intervals-total :
    (positions requested : List ℕ)
    → ((w : ℕ)
        → (row : List ℕ × List ℕ) × (prefix_interval (toggle_bits w positions (b'T' ∷ requested))
            ≡ ok row)
          × IsRow row)
    → (count variant : ℕ)
    → (rows : List (List ℕ × List ℕ)) × (variant_intervals count variant positions requested
        ≡ ok rows)
      × All IsRow rows
      × (length rows ≡ count)
unfolding variant_intervals
variant_intervals-total positions requested total zero variant = ([], refl, tt, refl)
variant_intervals-total positions requested total (suc count) variant =
    let (row, runs, shape) = total variant in
    let (rows, rest, shapes, size) =
      variant_intervals-total positions requested total count (variant + 1) in
    (row ∷ rows, rw (runs, rest) refl, (shape, shapes), ap suc size)

variant_intervals-cons :
    (positions requested : List ℕ) (count variant : ℕ) (rows : List (List ℕ × List ℕ))
    → variant_intervals (suc count) variant positions requested ≡ ok rows
    → (first : List ℕ × List ℕ) × (others : List (List ℕ × List ℕ)) × (prefix_interval
          (toggle_bits variant positions (b'T' ∷ requested))
        ≡ ok first)
      × (variant_intervals count (variant + 1) positions requested ≡ ok others)
      × (first ∷ others ≡ rows)
unfolding variant_intervals
variant_intervals-cons positions requested count variant rows runs =
    let (first, made, then') =
      >>=-eq-ok (prefix_interval (toggle_bits variant positions (b'T' ∷ requested)))
        (λ row.
          variant_intervals count (variant + 1) positions requested >>= λ others. ok (row ∷ others))
        runs in
    let (others, made', done) =
      >>=-eq-ok (variant_intervals count (variant + 1) positions requested)
        (λ others. ok (first ∷ others)) then' in
    (first, others, made, made', ok-injective done)

-- A payload in the row of one variant passes the table of all of them.
pub variant_intervals-passes :
    (positions requested payload : List ℕ)
    → (count variant w : ℕ) → (rows : List (List ℕ × List ℕ)) → (row : List ℕ × List ℕ)
    → variant_intervals count variant positions requested ≡ ok rows
    → variant ≤ w
    → w < variant + count
    → prefix_interval (toggle_bits w positions (b'T' ∷ requested)) ≡ ok row
    → in_row payload row ≡ true
    → device_payload_may_match_prefix payload rows ≡ true
unfolding variant_intervals device_payload_may_match_prefix in_row
variant_intervals-passes positions requested payload zero variant w rows row runs from to here hit =
    absurd (omega arith)
variant_intervals-passes positions requested payload (suc count) variant w rows row runs from to
      here hit =
    let (first, others, made, made', whole) =
      variant_intervals-cons positions requested count variant rows runs in
    subst (λ r. device_payload_may_match_prefix payload r ≡ true) whole
      (elim (Bool-cases (variant == w)) [
        | inl now ↦
            let same : ok first ≡ ok row =
              sym made
              ∙ ap (λ v. prefix_interval (toggle_bits v positions (b'T' ∷ requested)))
                  ((==_iff variant w).0 now)
              ∙ here in
            rw (ok-injective same, hit) refl
        | inr later ↦
            let rest =
              variant_intervals-passes positions requested payload count (variant + 1) w others row
                made' (ground arith) (ground arith) here hit in
            ground (arith, rest)
      ])

-- The number of the places of a prefix of up to four characters.
length-variable_positions : (i : ℕ) (cs : List ℕ) → length (variable_positions i cs) ≤ length cs
unfolding variable_positions
length-variable_positions i [] = omega arith
length-variable_positions i (c ∷ cs) = ground (arith, length-variable_positions (i + 1) cs)

-- The table of a prefix of one to four Base58 characters is filled without an exception. It has at
-- most eight rows of 21 bytes, and so fits the arrays of the device.
pub populate_prefix_intervals-total :
    (requested : List ℕ)
    → All IsBase58 requested
    → 1 ≤ length requested
    → length requested ≤ 4
    → (rows : List (List ℕ × List ℕ)) × (populate_prefix_intervals requested ≡ ok rows)
      × All IsRow rows
      × (length rows ≡ 2 ^ length (variable_positions 1 (drop 1 requested)))
      × (length rows ≤ 8)
unfolding populate_prefix_intervals
populate_prefix_intervals-total requested h some_left short =
    let places = length (variable_positions 1 (drop 1 requested)) in
    let few : places ≤ 3 =
      omega (arith, length-variable_positions 1 (drop 1 requested), length-drop 1 requested) in
    let bound : 2 ^ places ≤ 2 ^ 3 = pow-le-pow_right (omega arith) few in
    let (rows, runs, shapes, size) =
      variant_intervals-total (variable_positions 1 (drop 1 requested)) requested
        (λ w. variant-IsRow requested w h some_left (omega arith)) (2 ^ places) 0 in
    (rows, runs, shapes, size, omega arith)
