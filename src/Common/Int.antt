-- ===== src/Common/Int.antt =====
-- Go's `int` and the finite float64 values, with the comparisons that the program makes.
-- A finite float64 is a whole multiple of 2 ^ -1074, and stands here as that multiple.
use Prim.Native.Nat.{ℕ}
use mathlib.Core.Bool.{Bool, true, false}
use lumencast_go.Common.Tests.{ltb, ◌==◌}

-- `negsuc n` is -(n + 1).
pub data ℤ : Type 0 where
  pos : ℕ → ℤ
  negsuc : ℕ → ℤ

abbrev pub ltb_int : ℤ → ℤ → Bool
ltb_int (pos a) (pos b) = ltb a b
ltb_int (pos a) (negsuc b) = false
ltb_int (negsuc a) (pos b) = true
ltb_int (negsuc a) (negsuc b) = ltb b a

abbrev pub eqb_int : ℤ → ℤ → Bool
eqb_int (pos a) (pos b) = a == b
eqb_int (pos a) (negsuc b) = false
eqb_int (negsuc a) (pos b) = false
eqb_int (negsuc a) (negsuc b) = a == b
