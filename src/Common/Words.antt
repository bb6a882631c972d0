-- ===== src/Common/Words.antt =====
-- Machine words: fixed widths, shifts, and the meaning of `|`, `^` and `&` on disjoint digits.
use Prim.Native.Nat.{
  ℕ, zero, suc, ◌+◌, ◌*◌, ◌/◌, ◌%◌, ◌^◌, ◌≤◌, ◌<◌, max, digits, bit_or, bit_xor, bit_or-bitwise,
  bit_xor-bitwise,
}
use mathlib.Core.Path.{◌≡◌, refl, ap}
use mathlib.Core.Bool.{Bool, true, ◌&&◌}
use native.Mathlib.Nat.{pow-suc, pow-zero}
use native.Mathlib.Omega.{arith}

-- Casts to the fixed widths: the low bits.
abbrev pub u8 : ℕ → ℕ
u8 n = n % 256

abbrev pub u32 : ℕ → ℕ
u32 n = n % 2 ^ 32

abbrev pub u64 : ℕ → ℕ
u64 n = n % 2 ^ 64

abbrev pub IsByte : ℕ → Type 0
IsByte b = b < 256

abbrev pub IsU64 : ℕ → Type 0
IsU64 v = v < 2 ^ 64

-- The digit recursion of `|` at some fuel.
abbrev or_digits : ℕ → ℕ → ℕ → ℕ
or_digits fuel left right = digits (λ y. y) max fuel left right

-- It does not depend on spare fuel.
or_digits_fuel :
    (left right f g : ℕ) → left ≤ f → left ≤ g → or_digits f left right ≡ or_digits g left right
or_digits_fuel zero right zero zero enough also = refl
or_digits_fuel zero right zero (suc g) enough also = refl
or_digits_fuel zero right (suc f) zero enough also = refl
or_digits_fuel zero right (suc f) (suc g) enough also = refl
or_digits_fuel (suc left) right (suc f) (suc g) enough also =
    let half = suc left / 2 in
    omega (arith, or_digits_fuel half (right / 2) f g (omega arith) (omega arith))
or_digits_fuel (suc left) right zero g enough also = absurd (omega arith)
or_digits_fuel (suc left) right (suc f) zero enough also = absurd (omega arith)

-- One binary digit of `|`.
pub bit_or-step :
    (left right : ℕ)
    → bit_or left right ≡ bit_or (left / 2) (right / 2) * 2 + max (left % 2) (right % 2)
bit_or-step zero right = omega (arith, bit_or-bitwise 0 right, bit_or-bitwise (0 / 2) (right / 2))
bit_or-step (suc left) right =
    let half = suc left / 2 in
    let spare = or_digits_fuel half (right / 2) left half (omega arith) (omega arith) in
    omega (arith, spare, bit_or-bitwise half (right / 2), bit_or-bitwise (suc left) right)

pub zero-bit_or : (b : ℕ) → bit_or 0 b ≡ b
zero-bit_or b = bit_or-bitwise 0 b

bit_or-zero_below : (bound left : ℕ) → left ≤ bound → bit_or left 0 ≡ left
bit_or-zero_below bound zero small = refl
bit_or-zero_below (suc bound) (suc left) small =
    let half = bit_or-zero_below bound (suc left / 2) (omega arith) in
    omega (arith, half, bit_or-step (suc left) 0)
bit_or-zero_below zero (suc left) small = absurd (omega arith)

pub bit_or-zero : (left : ℕ) → bit_or left 0 ≡ left
bit_or-zero left = bit_or-zero_below left left (omega arith)

pub zero-bit_xor : (b : ℕ) → bit_xor 0 b ≡ b
zero-bit_xor b = bit_xor-bitwise 0 b

double_out : (q k : ℕ) → q * 2 ^ suc k ≡ 2 * (q * 2 ^ k)
double_out q k = omega (arith, ap (λ (t : ℕ). q * t) (pow-suc 2 k))

-- `r | (q << k)` is a sum when `r` fits in `k` bits.
pub bit_or-shifted : (k q r : ℕ) → r < 2 ^ k → bit_or r (q * 2 ^ k) ≡ r + q * 2 ^ k
bit_or-shifted zero q zero fits = omega (arith, zero-bit_or (q * 2 ^ 0))
bit_or-shifted zero q (suc r) fits = absurd (omega arith)
bit_or-shifted (suc k) q r fits = ground (
  arith,
  bit_or-step r (q * 2 ^ suc k),
  double_out q k,
  pow-suc 2 k,
  bit_or-shifted k q (r / 2) (omega (arith, pow-suc 2 k)),
)

-- `(q << k) | r`, the same with the operands the other way round.
pub shifted-bit_or : (k q r : ℕ) → r < 2 ^ k → bit_or (q * 2 ^ k) r ≡ q * 2 ^ k + r
shifted-bit_or zero q zero fits = omega (arith, bit_or-zero (q * 2 ^ 0))
shifted-bit_or zero q (suc r) fits = absurd (omega arith)
shifted-bit_or (suc k) q r fits = ground (
  arith,
  bit_or-step (q * 2 ^ suc k) r,
  double_out q k,
  pow-suc 2 k,
  shifted-bit_or k q (r / 2) (omega (arith, pow-suc 2 k)),
)

pub pow-add : (b m n : ℕ) → b ^ (m + n) ≡ b ^ m * b ^ n
pow-add b m zero =
    let e : m + 0 ≡ m = omega arith in rw e (omega (arith, ap (λ (t : ℕ). b ^ m * t) (pow-zero b)))
pow-add b m (suc n) =
    let e : m + suc n ≡ suc (m + n) = omega arith in
    rw (e, pow-suc b (m + n), pow-suc b n) (omega (arith, ap (λ (t : ℕ). t * b) (pow-add b m n)))

-- A test of all the numbers below a bound, for tables that evaluation checks.
unfoldable pub all_below : ℕ → (ℕ → Bool) → Bool
all_below zero test = true
all_below (suc bound) test = all_below bound test && test bound

pub all_below_sound :
    (bound : ℕ) (test : ℕ → Bool) (i : ℕ) → all_below bound test ≡ true → i < bound → test i ≡ true
unfolding all_below
all_below_sound (suc bound) test i holds below = ground (arith, all_below_sound bound test i)
all_below_sound zero test i holds below = absurd (omega arith)
