-- ===== src/Prelude/Word.antt =====
-- The operations of `u64` that the code uses: wrapping and saturating sums.
use Prim.Native.Nat.{ℕ, ◌+◌, ◌-◌, ◌%◌, ◌<◌, ◌^◌, min}
use mathlib.Core.Path.{◌≡◌}
use native.Mathlib.Omega.{arith}

abbrev pub u64_mod : ℕ
u64_mod = 2 ^ 64

abbrev pub u64_max : ℕ
u64_max = 2 ^ 64 - 1

-- `a + b` in a release build, `fetch_add`, `wrapping_add`.
abbrev pub wrapping_add : ℕ → ℕ → ℕ
wrapping_add a b = (a + b) % u64_mod

abbrev pub saturating_add : ℕ → ℕ → ℕ
saturating_add a b = min (a + b) u64_max

abbrev pub saturating_sub : ℕ → ℕ → ℕ
saturating_sub a b = a - b

pub wrapping_add-eq_add : (a b : ℕ) → a + b < u64_mod → wrapping_add a b ≡ a + b
wrapping_add-eq_add a b h = omega arith
