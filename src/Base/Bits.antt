-- ===== src/Base/Bits.antt =====
-- Bit masks and shifts on bytes and on 16-bit words, by evaluation of every value.
use Prim.Native.Nat.{ℕ, zero, suc, ◌<◌}
use mathlib.Core.Path.{◌≡◌}
use mathlib.Core.Bool.{Bool, true, ◌&&◌}
use native.Mathlib.Omega.{arith}

-- The test holds of every number below the bound.
unfoldable pub every_below : (bound : ℕ) (test : ℕ → Bool) → Bool
every_below zero test = true
every_below (suc k) test = every_below k test && test k

-- A table that was checked in full holds at each of its entries.
pub every_below_sound :
    (bound : ℕ) (test : ℕ → Bool) (entry : ℕ)
    → every_below bound test ≡ true
    → entry < bound
    → test entry ≡ true
unfolding every_below
every_below_sound zero test entry checked below = absurd (omega arith)
every_below_sound (suc k) test entry checked below = ground (arith, every_below_sound k test entry)
