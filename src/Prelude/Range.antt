-- ===== src/Prelude/Range.antt =====
-- A claim about every number below a bound, checked by evaluation.
use Prim.Native.Nat.{ℕ, zero, suc, ◌<◌}
use mathlib.Core.Path.{◌≡◌}
use mathlib.Core.Bool.{Bool, true, false}
use native.Mathlib.Omega.{arith}
use jyy_os.Prelude.Tests.{if◌then◌else◌}

unfoldable pub holds_below : (ℕ → Bool) → ℕ → Bool
holds_below claim zero = true
holds_below claim (suc bound) = if claim bound then holds_below claim bound else false

pub holds_below_lem :
    (claim : ℕ → Bool) (bound : ℕ)
    → holds_below claim bound ≡ true
    → (i : ℕ) → i < bound
    → claim i ≡ true
unfolding holds_below
holds_below_lem claim zero checked i below = absurd (omega arith)
holds_below_lem claim (suc bound) checked i below = ground (arith, holds_below_lem claim bound _ i)
