-- ===== src/Base/Ranges.antt =====
-- A test of every number below a bound, for finite tables.
use Prim.Native.Nat.{ℕ, zero, suc, ◌<◌}
use mathlib.Core.Path.{◌≡◌}
use mathlib.Core.Bool.{Bool, true, false}
use native.Mathlib.Decide.{dec_lt}
use native.Mathlib.Omega.{arith}
use alloc_test.Base.Tests.{if◌then◌else◌}

unfoldable pub all_below : ℕ → (ℕ → Bool) → Bool
all_below zero test = true
all_below (suc bound) test = let rest = all_below bound test in if test bound then rest else false

pub all_below_sound :
    (bound : ℕ) (test : ℕ → Bool) (i : ℕ) → all_below bound test ≡ true → i < bound → test i ≡ true
unfolding all_below
all_below_sound zero test i passed h = absurd (omega arith)
all_below_sound (suc bound) test i passed h = elim (dec_lt i bound) [
  | yes p ↦ all_below_sound bound test i (ground arith) p
  | no q ↦ ground arith
]
