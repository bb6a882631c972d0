-- ===== src/Common/Modular.antt =====
-- Remainders of products and powers.
use Prim.Native.Nat.{ℕ, zero, suc, ◌+◌, ◌*◌, ◌/◌, ◌%◌, ◌^◌}
use mathlib.Core.Path.{◌≡◌, refl, sym, ap, ◌∙◌}
use native.Mathlib.Nat.{pow-suc, pow-zero, mod-add-div, add-mul-mod_self_left}
use native.Mathlib.Omega.{arith}

-- A factor counts by its remainder.
pub mul_mod_left : (a b m : ℕ) → a % m * b % m ≡ a * b % m
mul_mod_left a b m =
    let split : a * b ≡ a % m * b + m * (a / m * b) =
      omega (arith, ap (λ (t : ℕ). t * b) (mod-add-div a m)) in
    rw split (sym (add-mul-mod_self_left (a % m * b) m (a / m * b)))

pub mul_mod_right : (a b m : ℕ) → a * (b % m) % m ≡ a * b % m
mul_mod_right a b m =
    let swap : a * (b % m) ≡ b % m * a = omega arith in
    let back : b * a ≡ a * b = omega arith in
    rw swap (mul_mod_left b a m ∙ ap (λ (t : ℕ). t % m) back)

pub mul_mod_both : (a b m : ℕ) → a % m * (b % m) % m ≡ a * b % m
mul_mod_both a b m = mul_mod_left a (b % m) m ∙ mul_mod_right a b m

pub pow_mod : (a n m : ℕ) → (a % m) ^ n % m ≡ a ^ n % m
pow_mod a zero m = rw (pow-zero (a % m), pow-zero a) refl
pow_mod a (suc n) m =
    rw (pow-suc (a % m) n, pow-suc a n)
      (sym (mul_mod_left ((a % m) ^ n) (a % m) m)
        ∙ ap (λ (t : ℕ). t * (a % m) % m) (pow_mod a n m)
        ∙ mul_mod_left (a ^ n) (a % m) m
        ∙ mul_mod_right (a ^ n) a m)

pub mul-pow : (a b n : ℕ) → (a * b) ^ n ≡ a ^ n * b ^ n
mul-pow a b zero = rw (pow-zero (a * b), pow-zero a, pow-zero b) refl
mul-pow a b (suc n) =
    rw (pow-suc (a * b) n, pow-suc a n, pow-suc b n)
      (omega (arith, ap (λ (t : ℕ). t * (a * b)) (mul-pow a b n)))

-- `b ^ (bit + 2 * n)`, by the square of the base.
pub pow_binary : (b n : ℕ) → (b * b) ^ n ≡ b ^ (2 * n)
pow_binary b zero = rw (pow-zero (b * b), pow-zero b) refl
pow_binary b (suc n) =
    let e : 2 * suc n ≡ suc (suc (2 * n)) = omega arith in
    rw (e, pow-suc (b * b) n, pow-suc b (suc (2 * n)), pow-suc b (2 * n))
      (omega (arith, ap (λ (t : ℕ). t * (b * b)) (pow_binary b n)))

pub one-pow : (n : ℕ) → 1 ^ n ≡ 1
one-pow zero = refl
one-pow (suc n) = rw (pow-suc 1 n) (omega (arith, one-pow n))
