-- ===== src/Base58/Room.antt =====
-- The size of the working buffer of `base58_encode` of native/src/tron.cpp.
use tron_wallet_searcher.Common.{
  ℕ, zero, suc, ◌+◌, ◌*◌, ◌/◌, ◌%◌, ◌^◌, ◌≤◌, ◌<◌, ◌≡◌, refl, true, ltb, ltb→lt, arith,
}
use tron_wallet_searcher.Common.Words.{all_below, all_below_sound, pow-add}
use tron_wallet_searcher.Base58.{buffer_size}

room_below_100 : all_below 100 (λ n. ltb (256 ^ n) (58 ^ buffer_size n)) ≡ true
unfolding all_below
room_below_100 = refl

room_blocks : (q r : ℕ) → r < 100 → 256 ^ (q * 100 + r) < 58 ^ (q * 138 + buffer_size r)
room_blocks zero r h =
    let bytes : 0 * 100 + r ≡ r = omega arith in
    let digits : 0 * 138 + buffer_size r ≡ buffer_size r = omega arith in
    rw (bytes, digits) (ltb→lt _ _ (all_below_sound 100 _ r room_below_100 h))
room_blocks (suc q) r h =
    let bytes : suc q * 100 + r ≡ q * 100 + r + 100 = omega arith in
    let digits : suc q * 138 + buffer_size r ≡ q * 138 + buffer_size r + 138 = omega arith in
    let block : 256 ^ 100 ≤ 58 ^ 138 = omega arith in
    rw (bytes, digits, pow-add 256 (q * 100 + r) 100, pow-add 58 (q * 138 + buffer_size r) 138)
      (grind (arith, room_blocks q r h, block))

pub buffer_size-room : (n : ℕ) → 256 ^ n < 58 ^ buffer_size n
buffer_size-room n =
    let bytes : n / 100 * 100 + n % 100 ≡ n = omega arith in
    let digits : n / 100 * 138 + buffer_size (n % 100) ≡ buffer_size n = omega arith in
    rw bytes at (rw digits at (room_blocks (n / 100) (n % 100) (omega arith)))
