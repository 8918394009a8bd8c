-- ===== src/Base/Int.antt =====
-- Signed integers over the native numbers, as much of them as the program's int64_t values need.
use Prim.Native.Nat.{ℕ}
use mathlib.Core.Bool.{Bool, false}
use cybersec_proj.Base.Tests.{ltb}

-- `negsuc n` is -(n + 1).
pub data ℤ : Type 0 where
  pos : ℕ → ℤ
  negsuc : ℕ → ℤ

-- `n < z` for a number n that is not negative.
abbrev pub exceeds : ℤ → ℕ → Bool
exceeds (pos m) n = ltb n m
exceeds (negsuc m) n = false

-- The rounds that a loop `for (i = 0; i < z; ...)` has left to count: none for a negative z.
abbrev pub to_count : ℤ → ℕ
to_count (pos m) = m
to_count (negsuc m) = 0
