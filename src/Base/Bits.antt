-- ===== src/Base/Bits.antt =====
-- Facts about bytes, checked over every value.
use Prim.Native.Nat.{ℕ, zero, suc, ◌<◌}
use mathlib.Core.Path.{◌≡◌}
use mathlib.Core.Bool.{Bool, true, ◌&&◌}
use native.Mathlib.Omega.{arith}

-- The test holds at each of the numbers below `n`.
unfoldable pub holds_below : (ℕ → Bool) → ℕ → Bool
holds_below test zero = true
holds_below test (suc k) = holds_below test k && test k

pub holds_below_at :
    (test : ℕ → Bool) (n : ℕ) → holds_below test n ≡ true → (i : ℕ) → i < n → test i ≡ true
unfolding holds_below
holds_below_at test zero checked i small = absurd (omega arith)
holds_below_at test (suc k) checked i small = ground (arith, holds_below_at test k (ground arith) i)
