-- ===== src/Common/Int.antt =====
-- Go's signed `int`, where a negative number can arrive: the integers and their tests.
use Prim.Native.Nat.{ℕ}
use mathlib.Core.Bool.{Bool, true, false}
use agent_debug_squad.Common.Tests.{ltb, ◌==◌}

-- `negsuc n` is -(n + 1).
pub data ℤ : Type 0 where
  pos : ℕ → ℤ
  negsuc : ℕ → ℤ

-- `z < n`, `z > n` and `z == n`.
abbrev pub below : ℤ → ℕ → Bool
below (pos a) n = ltb a n
below (negsuc a) n = true

abbrev pub above : ℤ → ℕ → Bool
above (pos a) n = ltb n a
above (negsuc a) n = false

abbrev pub is_int : ℤ → ℕ → Bool
is_int (pos a) n = a == n
is_int (negsuc a) n = false

-- The number, and 0 for a negative one.
abbrev pub to_nat : ℤ → ℕ
to_nat (pos a) = a
to_nat (negsuc a) = 0
