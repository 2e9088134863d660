-- ===== src/Prelude/Table.antt =====
-- Facts about every number below a bound, by evaluation.
use Prim.Native.Nat.{ℕ, zero, suc, ◌<◌}
use mathlib.Core.Bool.{Bool, true, ◌&&◌}
use mathlib.Core.Path.{◌≡◌}
use native.Mathlib.Omega.{arith}

-- `p` at each number below the bound, the bound's predecessor last.
unfoldable pub all_below : (ℕ → Bool) → ℕ → Bool
all_below p zero = true
all_below p (suc bound) = all_below p bound && p bound

pub all_below_sound :
    (p : ℕ → Bool) (bound i : ℕ) → all_below p bound ≡ true → i < bound → p i ≡ true
unfolding all_below
all_below_sound p zero i checked h = elim h [ ]
all_below_sound p (suc bound) i checked h = ground (arith, all_below_sound p bound i)
