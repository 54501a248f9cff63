-- ===== src/Common/Int.antt =====
-- Go's `int` where it may be negative.
use Prim.Native.Nat.{ℕ}
use mathlib.Core.Bool.{Bool, true, false}
use tuskbase.Common.Tests.{ltb}

-- `negsuc n` is -(n + 1).
pub data ℤ : Type 0 where
  pos : ℕ → ℤ
  negsuc : ℕ → ℤ

abbrev pub is_negative : ℤ → Bool
is_negative (pos n) = false
is_negative (negsuc n) = true

-- `n < z`
abbrev pub exceeds : ℕ → ℤ → Bool
exceeds n (pos z) = ltb n z
exceeds n (negsuc z) = false
