-- ===== src/Prelude/Every.antt =====
-- Tests at every number below a bound, for tables that evaluation decides.
use Prim.Native.Nat.{ℕ, zero, suc, ◌<◌}
use mathlib.Core.Path.{◌≡◌}
use mathlib.Core.Bool.{Bool, true, ◌&&◌}
use native.Mathlib.Omega.{arith}

-- A test at all numbers below a bound, which evaluation decides.
unfoldable pub every : (ℕ → Bool) → ℕ → Bool
every p zero = true
every p (suc k) = every p k && p k

pub every-at : (p : ℕ → Bool) (k j : ℕ) → j < k → every p k ≡ true → p j ≡ true
unfolding every
every-at p zero j less e = absurd (omega arith)
every-at p (suc k) j less e = ground (arith, every-at p k j)
