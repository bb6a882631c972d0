-- ===== src/Pattern/Loose.antt =====
-- `loose_equal` of native/src/tron.cpp and the test of the device.
use tron_wallet_searcher.Common.{ℕ, ◌≡◌, ◌↔◌, true, not, arith}
use tron_wallet_searcher.Pattern.{loose_equal, to_lower, device_differs}

-- Equal up to case, exactly.
pub loose_equal_iff : (a b : ℕ) → (loose_equal a b ≡ true) ↔ (to_lower a ≡ to_lower b)
unfolding loose_equal to_lower
loose_equal_iff a b = ground arith

pub device_differs-loose_equal : (a b : ℕ) → device_differs a b ≡ not (loose_equal a b)
unfolding device_differs loose_equal
device_differs-loose_equal a b = ground arith
