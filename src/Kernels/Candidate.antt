-- ===== src/Kernels/Candidate.antt =====
-- The address that the device makes of a public key: native/src/cuda_runtime.cu.
use tron_wallet_searcher.Common.{
  ℕ, zero, suc, ◌≡◌, refl, ap, ◌∙◌, sym, subst, List, [], ◌∷◌, ◌++◌, All-append, All-take, All-drop,
  length, length-append, length-take, length-drop, take_whole, take, drop, arith, ok, ok-injective,
  get_or,
}
use tron_wallet_searcher.Common.Words.{IsByte}
use tron_wallet_searcher.Keccak.{keccak_256, device_keccak_256_64}
use tron_wallet_searcher.Keccak.Device.{device_keccak_256_64-eq-keccak_256}
use tron_wallet_searcher.Keccak.Digest.{IsBytes, keccak_256-IsBytes}
use tron_wallet_searcher.Base58.{base58_encode, device_base58_25}
use tron_wallet_searcher.Base58.Device.{device_base58_25-eq-base58_encode}
use tron_wallet_searcher.Base58.Canonical.{base58_encode_tron}
use tron_wallet_searcher.PrefixFilter.{host_decode_base58}
use tron_wallet_searcher.PrefixFilter.Decode.{host_decode_base58-base58_encode}
use tron_wallet_searcher.Address.Payload.{tron_payload}
use tron_wallet_searcher.Kernels.{
  device_sha256_single_block, sha256_digest, device_tron_payload_from_public_key,
  device_tron_address_from_payload, device_tron_address_from_public_key,
}

-- The digest is 32 bytes.
device_sha256-IsBytes : (input : List ℕ) → IsBytes 32 (device_sha256_single_block input)
unfolding device_sha256_single_block sha256_digest
device_sha256-IsBytes input = record { size = refl; each = omega arith }

-- The payload of a key, with its checksum.
abbrev pub device_checked_payload : List ℕ → List ℕ
device_checked_payload public_key =
    let payload = device_tron_payload_from_public_key public_key in
    payload ++ take 4 (device_sha256_single_block (device_sha256_single_block payload))

payload-IsBytes :
    (public_key : List ℕ)
    → length public_key ≡ 64
    → IsBytes 20 (take 20 (drop 12 (device_keccak_256_64 public_key)))
payload-IsBytes public_key size =
    let d =
      subst (IsBytes 32) (sym (device_keccak_256_64-eq-keccak_256 public_key size))
        (keccak_256-IsBytes public_key) in
    let digest = device_keccak_256_64 public_key in
    record {
      size = length-take 20 (drop 12 digest) (omega (arith, d.size, length-drop 12 digest));
      each = All-take IsByte 20 (drop 12 digest) (All-drop IsByte 12 digest d.each);
    }

pub checked-IsBytes :
    (public_key : List ℕ)
    → length public_key ≡ 64
    → (rest : List ℕ) × (device_checked_payload public_key ≡ 0x41 ∷ rest) × IsBytes 24 rest
unfolding device_tron_payload_from_public_key
checked-IsBytes public_key size =
    let key = payload-IsBytes public_key size in
    let payload = device_tron_payload_from_public_key public_key in
    let check = device_sha256_single_block (device_sha256_single_block payload) in
    let c = device_sha256-IsBytes (device_sha256_single_block payload) in
    let front = take 20 (drop 12 (device_keccak_256_64 public_key)) in
    (
      front ++ take 4 check,
      refl,
      record {
        size = omega (
          arith,
          length-append front (take 4 check),
          key.size,
          length-take 4 check (omega (arith, c.size)),
        );
        each = All-append IsByte front (take 4 check) key.each (All-take IsByte 4 check c.each);
      },
    )

take_front : (n : ℕ) (xs ys : List ℕ) → length xs ≡ n → take n (xs ++ ys) ≡ xs
take_front zero [] ys size = refl
take_front zero (x ∷ xs) ys size = absurd (omega arith)
take_front (suc n) [] ys size = absurd (omega arith)
take_front (suc n) (x ∷ xs) ys size = ap (λ zs. x ∷ zs) (take_front n xs ys (omega arith))

device_payload_size :
    (public_key : List ℕ)
    → length public_key ≡ 64
    → length (device_tron_payload_from_public_key public_key) ≡ 21
unfolding device_tron_payload_from_public_key
device_payload_size public_key size = omega (arith, (payload-IsBytes public_key size).size)

payload_whole :
    (public_key : List ℕ)
    → length public_key ≡ 64
    → take 21 (device_tron_payload_from_public_key public_key)
      ≡ device_tron_payload_from_public_key public_key
payload_whole public_key size =
    take_whole 21 (device_tron_payload_from_public_key public_key)
      (omega (arith, device_payload_size public_key size))

-- The device writes the text of the checked payload and a NUL.
pub device_address-eq :
    (public_key : List ℕ)
    → length public_key ≡ 64
    → (s : List ℕ) × (base58_encode (device_checked_payload public_key) ≡ ok s)
      × (device_tron_address_from_public_key public_key ≡ s ++ 0 ∷ [])
      × (length s ≡ 34)
      × (get_or s 0 0 ≡ b'T')
unfolding device_tron_address_from_public_key device_tron_address_from_payload
device_address-eq public_key size =
    let payload = device_tron_payload_from_public_key public_key in
    let (rest, whole, r) = checked-IsBytes public_key size in
    let (s, encodes, sized, first) = base58_encode_tron rest r.size r.each in
    let every : IsByte 0x41 = omega arith in
    let (s', encodes', device) =
      device_base58_25-eq-base58_encode (0x41 ∷ rest) (omega (arith, r.size)) (every, r.each) in
    let same : s' ≡ s = ok-injective (sym encodes' ∙ encodes) in
    let short : take 21 payload ≡ payload = payload_whole public_key size in
    (
      s,
      ap base58_encode whole ∙ encodes,
      ap
            (λ p.
              device_base58_25
                (p ++ take 4 (device_sha256_single_block (device_sha256_single_block p))))
            short
          ∙ ap device_base58_25 whole
          ∙ device
          ∙ ap (λ t. t ++ 0 ∷ []) same,
      sized,
      first,
    )

-- The payload that the kernel makes is the documented one, for the device's own SHA-256.
checked_payload-eq_tron :
    (public_key : List ℕ)
    → length public_key ≡ 64
    → device_checked_payload public_key ≡ tron_payload device_sha256_single_block public_key
unfolding device_tron_payload_from_public_key
checked_payload-eq_tron public_key size =
    let d = keccak_256-IsBytes public_key in
    let whole : take 20 (drop 12 (keccak_256 public_key)) ≡ drop 12 (keccak_256 public_key) =
      take_whole 20 (drop 12 (keccak_256 public_key))
        (omega (arith, d.size, length-drop 12 (keccak_256 public_key))) in
    ap
      (λ (t : List ℕ).
        let key = 0x41 ∷ t in
        key ++ take 4 (device_sha256_single_block (device_sha256_single_block key)))
      (ap (λ (k : List ℕ). take 20 (drop 12 k)) (device_keccak_256_64-eq-keccak_256 public_key size)
        ∙ whole)

-- From the 64 bytes of a public key the device computes a text of 34 characters that begins with a T,
-- and a NUL behind it; the host's Base58 decoder reads the text as 0x41, the host's Keccak-256 digest
-- of the key from its byte 12 on, and the first four bytes of the device's SHA-256 of the device's
-- SHA-256 of these 21 bytes.
pub device_address-decodes :
    (public_key : List ℕ)
    → length public_key ≡ 64
    → (s : List ℕ) × (device_tron_address_from_public_key public_key ≡ s ++ 0 ∷ [])
      × (host_decode_base58 s ≡ ok (tron_payload device_sha256_single_block public_key))
      × (length s ≡ 34)
      × (get_or s 0 0 ≡ b'T')
device_address-decodes public_key size =
    let (s, encodes, device, sized, first) = device_address-eq public_key size in
    let (rest, whole, r) = checked-IsBytes public_key size in
    let every : IsByte 0x41 = omega arith in
    let (s', encodes', decodes) =
      host_decode_base58-base58_encode (0x41 ∷ rest) (omega (arith, r.size)) (every, r.each) in
    let same : s' ≡ s = ok-injective (sym encodes' ∙ sym (ap base58_encode whole) ∙ encodes) in
    (
      s,
      device,
      ap host_decode_base58 (sym same)
          ∙ decodes
          ∙ ap ok (sym whole ∙ checked_payload-eq_tron public_key size),
      sized,
      first,
    )

-- Without the checksum it is the payload.
pub payload_size_lem :
    (public_key : List ℕ)
    → length public_key ≡ 64
    → take 21 (device_checked_payload public_key) ≡ device_tron_payload_from_public_key public_key
payload_size_lem public_key size =
    take_front 21 (device_tron_payload_from_public_key public_key)
      (take 4 (
        device_sha256_single_block
          (device_sha256_single_block (device_tron_payload_from_public_key public_key))))
      (device_payload_size public_key size)
