-- ===== src/Prelude/Int.antt =====
-- C's `int` where it is a status: negative codes, zero, and positive exception codes.
use Prim.Native.Nat.{ℕ}
use mathlib.Core.Bool.{Bool, true, false}
use loop_charger_inverter.Prelude.Tests.{◌==◌}

-- `negsuc n` is -(n + 1).
pub data ℤ : Type 0 where
  pos : ℕ → ℤ
  negsuc : ℕ → ℤ

-- `x == k` for a constant k ≥ 0.
abbrev pub eq_pos : ℤ → ℕ → Bool
eq_pos (pos n) k = n == k
eq_pos (negsuc n) k = false

-- `x < 0`.
abbrev pub is_neg : ℤ → Bool
is_neg (pos n) = false
is_neg (negsuc n) = true
