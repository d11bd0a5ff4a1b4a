-- ===== src/Base/Tables.antt =====
-- Facts about small ranges, proved by evaluation at every value.
use Prim.Native.Nat.{ℕ, zero, suc, ◌<◌}
use mathlib.Core.Path.{◌≡◌}
use mathlib.Core.Bool.{Bool, true, ◌&&◌}
use native.Mathlib.Omega.{arith}

-- The test holds at every number below the bound.
unfoldable pub check_up : (ℕ → Bool) → ℕ → Bool
check_up test zero = true
check_up test (suc k) = check_up test k && test k

module _ (test : ℕ → Bool) where
  pub check_up_at : (i k : ℕ) → i < k → check_up test k ≡ true → test i ≡ true
  unfolding check_up
  check_up_at i zero below checked = absurd (omega arith)
  check_up_at i (suc k) below checked = ground (arith, check_up_at i k)
