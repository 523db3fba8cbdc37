-- ===== src/Base/Panic.antt =====
-- Computations that may panic: `none` is a panic, such as a subtraction that underflows.
use Prim.Native.Nat.{ℕ, ◌-◌, ◌≤◌}
use native.Mathlib.Omega.{arith}
use mathlib.Core.Path.{◌≡◌}
use mathlib.Core.Option.{Option, none, some}
use ripmcp.Base.Tests.{ltb, if◌then◌else◌}

infixl 5 ◌>>=◌
abbrev pub ◌>>=◌ {ℓ κ} : {A : Type ℓ} {B : Type κ} → Option A → (A → Option B) → Option B
none >>= f = none
some a >>= f = f a

-- `a - b` on `usize`.
abbrev pub checked_sub : ℕ → ℕ → Option ℕ
checked_sub a b = if ltb a b then none else some (a - b)

pub checked_sub_le : (a b : ℕ) → b ≤ a → checked_sub a b ≡ some (a - b)
checked_sub_le a b h = ground arith
