-- ===== src/Prelude/Words.antt =====
-- Go's `uint64`: sums and differences wrap modulo 2 ^ 64.
use Prim.Native.Nat.{ℕ, ◌+◌, ◌-◌, ◌%◌, ◌^◌, ◌<◌}
use mathlib.Core.Path.{◌≡◌}
use native.Mathlib.Omega.{arith}

abbrev pub u64 : ℕ → ℕ
u64 n = n % 2 ^ 64

unfoldable pub add64 : ℕ → ℕ → ℕ
add64 a b = u64 (a + b)

-- The second operand is below 2 ^ 64.
unfoldable pub sub64 : ℕ → ℕ → ℕ
sub64 a b = u64 (a + 2 ^ 64 - u64 b)

pub add64_mod : (a b : ℕ) → add64 (u64 a) b ≡ u64 (a + b)
unfolding add64
add64_mod a b = omega arith

pub sub64_mod : (a b : ℕ) → sub64 (u64 (a + b)) b ≡ u64 a
unfolding sub64
sub64_mod a b = omega arith

pub u64_small : (a : ℕ) → a < 2 ^ 64 → u64 a ≡ a
u64_small a h = omega arith
