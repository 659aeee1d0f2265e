-- ===== src/Prelude/Bits.antt =====
-- Checks over every value of a small range.
use Prim.Native.Nat.{ℕ, zero, suc, ◌<◌}
use mathlib.Core.Path.{◌≡◌}
use mathlib.Core.Bool.{Bool, true, ◌&&◌}
use native.Mathlib.Omega.{arith}

-- The test holds at every number below the bound.
unfoldable pub each_below : ℕ → (ℕ → Bool) → Bool
each_below zero test = true
each_below (suc m) test = each_below m test && test m

module _ (test : ℕ → Bool) where
  from_each : (m k : ℕ) → each_below m test ≡ true → k < m → test k ≡ true
  unfolding each_below
  from_each zero k all below = absurd (omega arith)
  from_each (suc m) k all below = ground (arith, from_each m k)

pub each_below_at :
    (m : ℕ) (test : ℕ → Bool) (k : ℕ) → each_below m test ≡ true → k < m → test k ≡ true
each_below_at m test k all below = from_each test m k all below
