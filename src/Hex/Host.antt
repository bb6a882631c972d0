-- ===== src/Hex/Host.antt =====
-- The reader of public keys in native/src/cuda_runtime.cu against `hex_to_bytes` of
-- native/src/tron.cpp.
use tron_wallet_searcher.Common.{
  ℕ, zero, suc, ◌+◌, ◌*◌, ◌^◌, ◌≤◌, ◌<◌, ◌≡◌, refl, ap, ◌∙◌, List, [], ◌∷◌, ◌++◌, append-nil,
  get_or, set, take, drop, replicate, bit_or, length, length-set, take_whole, Result, ok, err, ◌==◌,
  ==_iff, if◌then◌else◌, arith, inl, inr, Bool-cases, ◌>>=◌,
}
use tron_wallet_searcher.Common.Words.{u8}
use tron_wallet_searcher.Hex.{
  nibble, hex_pairs, hex_to_bytes, not_a_point, host_hex_nibble, host_public_key_loop,
  host_public_key_bytes,
}

host_hex_nibble-eq : (c : ℕ) → host_hex_nibble c ≡ nibble c
unfolding host_hex_nibble nibble
host_hex_nibble-eq c = refl

-- The two characters of the next byte.
drop-next : (k : ℕ) (xs : List ℕ) → k < length xs → drop k xs ≡ get_or xs k 0 ∷ drop (k + 1) xs
drop-next k [] h = absurd (omega arith)
drop-next zero (x ∷ xs) h = refl
drop-next (suc k) (x ∷ xs) h =
    let e : suc k + 1 ≡ suc (k + 1) = omega arith in rw e (drop-next k xs (omega arith))

-- A cell that is set behind those that are done.
take-set :
    (k v : ℕ) (xs ys : List ℕ)
    → k < length xs
    → take (k + 1) (set xs k v) ++ ys ≡ take k xs ++ (v ∷ ys)
take-set k v [] ys h = absurd (omega arith)
take-set zero v (x ∷ xs) ys h = refl
take-set (suc k) v (x ∷ xs) ys h =
    let e : suc k + 1 ≡ suc (k + 1) = omega arith in
    rw e (ap (◌∷◌ x) (take-set k v xs ys (omega arith)))

-- The bytes that are done, and those that the reader of pairs gives for the rest.
abbrev behind : List ℕ → Result (List ℕ) → Result (List ℕ)
behind done (ok bytes) = ok (done ++ bytes)
behind done (err thrown) = err thrown

behind-cons :
    (k v : ℕ) (output : List ℕ) (rest : Result (List ℕ))
    → k < length output
    → behind (take (k + 1) (set output k v)) rest
      ≡ behind (take k output) (rest >>= λ bytes. ok (v ∷ bytes))
behind-cons k v output (ok bytes) h = ap ok (take-set k v output bytes h)
behind-cons k v output (err thrown) h = refl

no_more : (k : ℕ) (xs : List ℕ) → length xs ≤ k → drop k xs ≡ []
no_more zero [] h = refl
no_more zero (x ∷ xs) h = absurd (omega arith)
no_more (suc k) [] h = refl
no_more (suc k) (x ∷ xs) h = no_more k xs (omega arith)

host_public_key_loop-eq :
    (rounds index : ℕ) (value output : List ℕ)
    → length value ≡ (index + rounds) * 2
    → length output ≡ index + rounds
    → host_public_key_loop rounds index value output
      ≡ behind (take index output) (hex_pairs (drop (index * 2) value))
unfolding host_public_key_loop hex_pairs
host_public_key_loop-eq zero index value output size room =
    rw
      (
        no_more (index * 2) value (omega arith),
        take_whole index output (omega arith),
        append-nil output,
      )
      refl
host_public_key_loop-eq (suc rounds) index value output size room =
    let first = drop-next (index * 2) value (omega arith) in
    let second = drop-next (index * 2 + 1) value (omega arith) in
    let on : index * 2 + 1 + 1 ≡ (index + 1) * 2 = omega arith in
    rw
      (
        first,
        second,
        on,
        host_hex_nibble-eq (get_or value (index * 2) 0),
        host_hex_nibble-eq (get_or value (index * 2 + 1) 0),
      )
      (go (nibble (get_or value (index * 2) 0)) (nibble (get_or value (index * 2 + 1) 0)) (λ byte.
        host_public_key_loop-eq rounds (index + 1) value (set output index byte) (omega arith)
          (omega (arith, length-set output index byte))))
  where
    go :
        (high low : Result ℕ)
        → ((byte : ℕ)
            → host_public_key_loop rounds (index + 1) value (set output index byte)
              ≡ behind
                  (take (index + 1) (set output index byte))
                  (hex_pairs (drop ((index + 1) * 2) value)))
        → (high >>= λ h. low >>= λ l.
            host_public_key_loop rounds
              (index + 1)
              value
              (set output index (u8 (bit_or (h * 2 ^ 4) l))))
          ≡ behind (take index output) (
              high >>= λ h. low >>= λ l. hex_pairs (drop ((index + 1) * 2) value) >>= λ bytes.
              ok (u8 (bit_or (h * 2 ^ 4) l) ∷ bytes))
    go (err thrown) low onward = refl
    go (ok h) (err thrown) onward = refl
    go (ok h) (ok l) onward =
        let byte = u8 (bit_or (h * 2 ^ 4) l) in
        onward byte
        ∙ behind-cons index byte output (hex_pairs (drop ((index + 1) * 2) value)) (omega arith)

whole : (read : Result (List ℕ)) → behind [] read ≡ read
whole (ok bytes) = refl
whole (err thrown) = refl

-- The host code of the CUDA part, which has its own test of a digit and fills an array of 64 bytes
-- by their indices, reads a public key of 128 characters as `hex_to_bytes` does, bad characters
-- included, and refuses every other length.
pub host_public_key_bytes-eq-hex_to_bytes :
    (s : List ℕ)
    → host_public_key_bytes s ≡ (if length s == 128 then hex_to_bytes s else err not_a_point)
unfolding host_public_key_bytes hex_to_bytes
host_public_key_bytes-eq-hex_to_bytes s = elim (Bool-cases (length s == 128)) [
  | inl e ↦
      let size = (==_iff (length s) 128).0 e in
      rw (e, size)
        (host_public_key_loop-eq 64 0 s (replicate 64 0) (omega (arith, size)) refl
          ∙ whole (hex_pairs s))
  | inr ne ↦ rw ne
]
