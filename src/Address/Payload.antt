-- ===== src/Address/Payload.antt =====
-- The address of a point and the payload in it: native/src/tron.cpp.
use tron_wallet_searcher.Common.{
  ℕ, ◌-◌, ◌≤◌, ◌≡◌, ap, ◌∙◌, ◌++◌, true, false, err, take_whole, refl, ◌⊎◌, inl, inr, Bool-cases,
  List, ◌∷◌, length, length-append, length-take, length-drop, take, drop, All-append, All-take,
  All-drop, ok, arith,
}
use tron_wallet_searcher.Common.Words.{IsByte}
use tron_wallet_searcher.Keccak.{keccak_256}
use tron_wallet_searcher.Keccak.Digest.{IsBytes, keccak_256-IsBytes}
use tron_wallet_searcher.PrefixFilter.{host_decode_base58}
use tron_wallet_searcher.PrefixFilter.Decode.{host_decode_base58-base58_encode}
use tron_wallet_searcher.OpenSsl.{Library, IsPrinted}
use tron_wallet_searcher.Address.{address_payload, point_to_address, not_serialized}

-- The payload is 25 bytes.
pub address_payload-IsBytes :
    (lib : Library) (public_key : List ℕ)
    → IsPrinted lib
    → IsBytes 25 (address_payload lib public_key)
unfolding address_payload
address_payload-IsBytes lib public_key p =
    let digest = keccak_256 (drop 1 public_key) in
    let d = keccak_256-IsBytes (drop 1 public_key) in
    let tail = drop (length digest - 20) digest in
    let body = 0x41 ∷ take 20 tail in
    let check = lib.sha256 (lib.sha256 body) in
    let tail_size : 20 ≤ length tail =
      omega (arith, d.size, length-drop (length digest - 20) digest) in
    let check_size = p.digest_size (lib.sha256 body) in
    record {
      size = omega (
        arith,
        length-append body (take 4 check),
        length-take 20 tail tail_size,
        length-take 4 check (omega arith),
      );
      each =
          All-append IsByte body (take 4 check)
            (
              omega arith,
              All-take IsByte 20 tail (All-drop IsByte (length digest - 20) digest d.each),
            )
            (All-take IsByte 4 check (p.digest_bytes (lib.sha256 body)));
    }

-- The payload, written out.
abbrev pub tron_payload : (List ℕ → List ℕ) → List ℕ → List ℕ
tron_payload sha256 coordinates =
    let key = 0x41 ∷ drop 12 (keccak_256 coordinates) in key ++ take 4 (sha256 (sha256 key))

address_payload-eq_tron :
    (lib : Library) (public_key : List ℕ)
    → address_payload lib public_key ≡ tron_payload lib.sha256 (drop 1 public_key)
unfolding address_payload
address_payload-eq_tron lib public_key =
    let digest = keccak_256 (drop 1 public_key) in
    let d = keccak_256-IsBytes (drop 1 public_key) in
    let twelve : length digest - 20 ≡ 12 = omega (arith, d.size) in
    let whole : take 20 (drop 12 digest) ≡ drop 12 digest =
      take_whole 20 (drop 12 digest) (omega (arith, d.size, length-drop 12 digest)) in
    let body : take 20 (drop (length digest - 20) digest) ≡ drop 12 digest =
      ap (λ (k : ℕ). take 20 (drop k digest)) twelve ∙ whole in
    ap (λ (t : List ℕ). let key = 0x41 ∷ t in key ++ take 4 (lib.sha256 (lib.sha256 key))) body

refused :
    (lib : Library) (point : lib.Point)
    → IsPrinted lib
    → lib.is_at_infinity point ≡ true
    → point_to_address lib point ≡ err not_serialized
unfolding point_to_address
refused lib point p infinite = rw (p.infinite_size point infinite) refl

pub finite_address :
    (lib : Library) (point : lib.Point)
    → IsPrinted lib
    → lib.is_at_infinity point ≡ false
    → (address : List ℕ) × (point_to_address lib point ≡ ok address)
      × (host_decode_base58 address
          ≡ ok (tron_payload lib.sha256 (drop 1 (lib.uncompressed point))))
unfolding point_to_address
finite_address lib point p finite =
    let serialized = lib.uncompressed point in
    let b = address_payload-IsBytes lib serialized p in
    let (address, encodes, decodes) =
      host_decode_base58-base58_encode (address_payload lib serialized) b.size b.each in
    (
      address,
      rw (p.finite_size point finite) encodes,
      decodes ∙ ap ok (address_payload-eq_tron lib serialized),
    )

-- The point at infinity has no address: an exception is thrown. Every other point has one, which is
-- decoded to 0x41, the digest of the point's two coordinates from its byte 12 on, and the first four
-- bytes of the SHA-256 of the SHA-256 of these 21 bytes.
pub point_to_address-decodes :
    (lib : Library) (point : lib.Point)
    → IsPrinted lib
    → ((lib.is_at_infinity point ≡ true) × (point_to_address lib point ≡ err not_serialized))
      ⊎ ((lib.is_at_infinity point ≡ false)
          × ((address : List ℕ) × (point_to_address lib point ≡ ok address)
              × (host_decode_base58 address
                  ≡ ok (tron_payload lib.sha256 (drop 1 (lib.uncompressed point))))))
point_to_address-decodes lib point p = elim (Bool-cases (lib.is_at_infinity point)) [
  | inl infinite ↦ inl (infinite, refused lib point p infinite)
  | inr finite ↦ inr (finite, finite_address lib point p finite)
]
