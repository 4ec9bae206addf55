-- ===== src/Prelude/Table.antt =====
-- Facts about every number of a small range, by evaluation.
use Prim.Native.Nat.{ℕ, zero, suc, ◌<◌}
use mathlib.Core.Path.{◌≡◌}
use mathlib.Core.Bool.{Bool, true, ◌&&◌}
use native.Mathlib.Omega.{arith}

-- The test holds at 0, 1, ... and `bound - 1`.
unfoldable pub holds_to : (test : ℕ → Bool) (bound : ℕ) → Bool
holds_to test zero = true
holds_to test (suc bound) = holds_to test bound && test bound

pub look_up :
    (test : ℕ → Bool) {bound k : ℕ} → holds_to test bound ≡ true → k < bound → test k ≡ true
unfolding holds_to
look_up test {bound = zero} table below = absurd (omega arith)
look_up test {bound = suc bound} {k = k} table below =
    ground (arith, look_up test {bound = bound} {k = k})
