-- ===== src/OpenSsl/Toy.antt =====
-- A library that the documented behaviour holds of, on a group of order 97: numbers modulo 97 stand
-- for the points. The runs use it.
use tron_wallet_searcher.Common.{
  ℕ, ◌+◌, ◌%◌, refl, ◌∷◌, replicate, true, All, Bool-cases, inl, inr, if◌then◌else◌, [], ◌==◌, none,
  some, arith,
}
use tron_wallet_searcher.Base58.Value.{be_value}
use tron_wallet_searcher.Hex.Accepts.{all_hex}
use tron_wallet_searcher.Common.Words.{IsByte}
use tron_wallet_searcher.OpenSsl.{
  natural, Library, be_bytes, IsDocumented, IsPrinted, hex_number, decimal_number, all_decimal,
}

abbrev pub toy : Library
toy = record {
  Point = ℕ;
  group_made = true;
  context_made = true;
  order = some 97;
  generator = some 1;
  hex2bn = λ s. if all_hex s then some (natural (hex_number s)) else none;
  dec2bn = λ s. if all_decimal s then some (natural (decimal_number s)) else none;
  bn2binpad = λ v n. some (be_bytes n v.magnitude);
  add_word = λ v w. some (natural (v.magnitude + w));
  mod_add = λ a b n. some (natural ((a.magnitude + b.magnitude) % n));
  oct2point = λ bytes. some (be_value 256 0 bytes % 97);
  is_on_curve = λ p. true;
  is_at_infinity = λ p. p == 0;
  mul_generator = λ v. some (v.magnitude % 97);
  mul_add = λ v p. some ((v.magnitude + p) % 97);
  add = λ p q. some ((p + q) % 97);
  uncompressed = λ p. if p == 0 then 0 ∷ [] else 4 ∷ replicate 64 (p % 256);
  compressed = λ p. 2 ∷ replicate 32 (p % 256);
  sha256 = λ bytes. replicate 32 7;
}

pub toy-IsDocumented : IsDocumented toy 97
toy-IsDocumented = record {
  makes_group = refl;
  makes_context = refl;
  reads_order = refl;
  positive = omega arith;
  fits = omega arith;
  pads = λ v fits. refl;
  reads_hex = λ s readable digits. rw digits refl;
  reads_decimal = λ s readable digits. rw digits refl;
  adds = λ v w. refl;
  adds_modulo = λ v w. refl;
}

toy_bytes : (p : ℕ) → All IsByte (toy.uncompressed p)
toy_bytes p = elim (Bool-cases (p == 0)) [
  | inl infinite ↦ rw infinite (omega arith)
  | inr finite ↦ rw finite (omega arith)
]

pub toy-IsPrinted : IsPrinted toy
toy-IsPrinted = record {
  finite_size = λ p finite. rw finite refl;
  infinite_size = λ p infinite. rw infinite refl;
  point_bytes = toy_bytes;
  digest_size = λ bytes. refl;
  digest_bytes = λ bytes. omega arith;
}
