-- ===== src/Base/Ranges.antt =====
-- A property of every number below a bound, by evaluation.
use zephyr_secure_supervisor.Base.Tests.{if◌then◌else◌}
use Prim.Native.Nat.{ℕ, zero, suc, ◌<◌}
use mathlib.Core.Path.{◌≡◌}
use mathlib.Core.Bool.{Bool, true, false}
use native.Mathlib.Omega.{arith}

unfoldable pub all_below : ℕ → (ℕ → Bool) → Bool
all_below zero test = true
all_below (suc last) test = let others = all_below last test in if test last then others else false

pub all_below_sound :
    (bound : ℕ) (test : ℕ → Bool) (i : ℕ) → all_below bound test ≡ true → i < bound → test i ≡ true
unfolding all_below
all_below_sound zero test i every below = absurd (omega arith)
all_below_sound (suc last) test i every below =
    let ih = all_below_sound last test i in ground (arith, ih)
