-- ===== src/Base/Int.antt =====
-- Signed integers over the native numbers; `negsuc n` is -(n + 1).
use Prim.Native.Nat.{ℕ, ◌+◌}
use mathlib.Core.Bool.{Bool, false}
use ripmcp.Base.Tests.{◌==◌}

pub data ℤ : Type 0 where
  pos : ℕ → ℤ
  negsuc : ℕ → ℤ

-- Whether an integer is `-n`, for a positive `n`.
abbrev pub is_minus : ℕ → ℤ → Bool
is_minus n (pos m) = false
is_minus n (negsuc m) = m + 1 == n
