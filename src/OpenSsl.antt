-- ===== src/OpenSsl.antt =====
-- What native/src/tron.cpp uses of OpenSSL, which is not part of the repository: a record of
-- operations, and a record of what its documentation says of them. An operation that can fail returns an
-- `Option`, and an allocation that can fail is a Boolean. A BIGNUM is its sign and its magnitude.
pub mod Bytes
pub mod Toy
use tron_wallet_searcher.Common.{
  ℕ, zero, suc, ◌+◌, ◌*◌, ◌/◌, ◌%◌, ◌^◌, ◌≤◌, ◌<◌, ◌≡◌, List, [], ◌∷◌, ◌++◌, map, ◌-◌, Bool, true,
  false, not, ◌&&◌, ◌==◌, leb, length, All, Option, none, some,
}
use tron_wallet_searcher.Common.Words.{IsByte}
use tron_wallet_searcher.Hex.Accepts.{all_hex, hex_value}
use tron_wallet_searcher.Base58.Value.{be_value}

pub record Bn : Type 0 where
  pub negative : Bool
  pub magnitude : ℕ

abbrev pub natural : ℕ → Bn
natural v = record { negative = false; magnitude = v }

-- `BN_is_zero`, and `BN_cmp(value, order) >= 0` for an order that is not negative.
abbrev pub is_zero : Bn → Bool
is_zero value = value.magnitude == 0

abbrev pub reaches : Bn → ℕ → Bool
reaches value order = not value.negative && leb order value.magnitude

pub record Library : Type 1 where
  pub Point : Type 0
  -- Whether the group and the context are made.
  pub group_made : Bool
  pub context_made : Bool
  pub order : Option ℕ
  pub generator : Option Point
  -- BN_hex2bn, BN_dec2bn, BN_bn2binpad, BN_add_word, BN_mod_add
  pub hex2bn : List ℕ → Option Bn
  pub dec2bn : List ℕ → Option Bn
  pub bn2binpad : Bn → ℕ → Option (List ℕ)
  pub add_word : Bn → ℕ → Option Bn
  pub mod_add : Bn → Bn → ℕ → Option Bn
  -- EC_POINT_oct2point, EC_POINT_is_on_curve, EC_POINT_is_at_infinity
  pub oct2point : List ℕ → Option Point
  pub is_on_curve : Point → Bool
  pub is_at_infinity : Point → Bool
  -- EC_POINT_mul of the generator alone, and with a point that is added once
  pub mul_generator : Bn → Option Point
  pub mul_add : Bn → Point → Option Point
  pub add : Point → Point → Option Point
  -- EC_POINT_point2oct, in its two forms, and SHA256
  pub uncompressed : Point → List ℕ
  pub compressed : Point → List ℕ
  pub sha256 : List ℕ → List ℕ

-- The `n` bytes of a number, the most significant first.
unfoldable pub be_bytes : ℕ → ℕ → List ℕ
be_bytes zero v = []
be_bytes (suc n) v = v / 256 ^ n % 256 ∷ be_bytes n v

-- The numbers that texts of digits stand for.
unfoldable pub all_decimal : List ℕ → Bool
all_decimal [] = true
all_decimal (c ∷ s) = (leb b'0' c && leb c b'9') && all_decimal s

abbrev pub hex_number : List ℕ → ℕ
hex_number s = be_value 16 0 (map hex_value s)

abbrev pub decimal_number : List ℕ → ℕ
decimal_number s = be_value 10 0 (map (λ c. c - b'0') s)

-- The number of digits that the readers of numbers take is limited.
abbrev pub IsReadable : List ℕ → Type 0
IsReadable s = (1 ≤ length s) × (length s < 2 ^ 29)

-- The documented behaviour of the operations on numbers, for a curve of order `n`.
pub record IsDocumented (lib : Library) (n : ℕ) : Type 0 where
  pub makes_group : lib.group_made ≡ true
  pub makes_context : lib.context_made ≡ true
  pub reads_order : lib.order ≡ some n
  pub positive : 1 ≤ n
  pub fits : n < 2 ^ 256
  pub pads : (v : ℕ) → v < 2 ^ 256 → lib.bn2binpad (natural v) 32 ≡ some (be_bytes 32 v)
  pub reads_hex :
      (s : List ℕ) → IsReadable s → all_hex s ≡ true → lib.hex2bn s ≡ some (natural (hex_number s))
  pub reads_decimal :
      (s : List ℕ)
      → IsReadable s
      → all_decimal s ≡ true
      → lib.dec2bn s ≡ some (natural (decimal_number s))
  pub adds : (v w : ℕ) → lib.add_word (natural v) w ≡ some (natural (v + w))
  pub adds_modulo : (v w : ℕ) → lib.mod_add (natural v) (natural w) n ≡ some (natural ((v + w) % n))

-- A finite point is printed as 65 bytes and the point at infinity as one, and a digest has 32.
pub record IsPrinted (lib : Library) : Type 0 where
  pub finite_size :
      (p : lib.Point) → lib.is_at_infinity p ≡ false → length (lib.uncompressed p) ≡ 65
  pub infinite_size :
      (p : lib.Point) → lib.is_at_infinity p ≡ true → length (lib.uncompressed p) ≡ 1
  pub point_bytes : (p : lib.Point) → All IsByte (lib.uncompressed p)
  pub digest_size : (bytes : List ℕ) → length (lib.sha256 bytes) ≡ 32
  pub digest_bytes : (bytes : List ℕ) → All IsByte (lib.sha256 bytes)
