-- ===== src/Supervisor/Barrier/Closed.antt =====
-- supervisor/barrier.rs: nobody is inside with maintenance or after the close.
use ripmcp.Base.{ℕ, ◌+◌, ◌≤◌, true, ◌≡◌, refl, arith, ◌⊎◌, inl, inr}
use ripmcp.Supervisor.Barrier.{
  Holder, nobody, arriving, maintenance, closer, Barrier, Step, enter, entered, refused, left,
  maintain, maintained, maintenance_refused, maintenance_left, close, closed, close_left, Steps,
  here, next, initial,
}

-- Who holds the lock alone is alone.
abbrev IsSafe : ℕ → ℕ → Holder → Type 0
IsSafe a i nobody = Unit
IsSafe a i arriving = a + i ≡ 0
IsSafe a i maintenance = a + i ≡ 0
IsSafe a i closer = a + i ≡ 0

Step-IsSafe :
    {b b' : Barrier}
    → Step b b'
    → IsSafe b.arriving b.inside b.holder
    → IsSafe b'.arriving b'.inside b'.holder
Step-IsSafe (enter a i c) h = tt
Step-IsSafe (entered a i nobody) h = tt
Step-IsSafe (entered a i arriving) h = omega arith
Step-IsSafe (entered a i maintenance) h = omega arith
Step-IsSafe (entered a i closer) h = omega arith
Step-IsSafe (refused a i nobody) h = tt
Step-IsSafe (refused a i arriving) h = omega arith
Step-IsSafe (refused a i maintenance) h = omega arith
Step-IsSafe (refused a i closer) h = omega arith
Step-IsSafe (left a i nobody c) h = tt
Step-IsSafe (left a i arriving c) h = omega arith
Step-IsSafe (left a i maintenance c) h = omega arith
Step-IsSafe (left a i closer c) h = omega arith
Step-IsSafe (maintain c) h = refl
Step-IsSafe (maintained a i) h = h
Step-IsSafe (maintenance_refused a i) h = tt
Step-IsSafe (maintenance_left a i c) h = tt
Step-IsSafe (close a i holder c) h = h
Step-IsSafe closed h = refl
Step-IsSafe (close_left a i c) h = tt

Steps-IsSafe : {b : Barrier} → Steps initial b → IsSafe b.arriving b.inside b.holder
Steps-IsSafe here = tt
Steps-IsSafe (next s k) = Step-IsSafe k (Steps-IsSafe s)

-- In every state that the tasks reach from the start, however their steps interleave: while
-- maintenance or the end of the supervisor holds the gate, no request is inside.
pub Steps-inside :
    {b : Barrier} → Steps initial b → (b.holder ≡ maintenance) ⊎ (b.holder ≡ closer) → b.inside ≡ 0
Steps-inside {b} s = alone b.holder (Steps-IsSafe s)
  where
    alone :
        (h : Holder)
        → IsSafe b.arriving b.inside h
        → (h ≡ maintenance) ⊎ (h ≡ closer)
        → b.inside ≡ 0
    alone nobody k (inl e) = cc
    alone nobody k (inr e) = cc
    alone arriving k e = omega arith
    alone maintenance k e = omega arith
    alone closer k e = omega arith

Step-closing :
    {b b' : Barrier} → Step b b' → b.closing ≡ true → (b'.closing ≡ true) × (b'.inside ≤ b.inside)
Step-closing (enter a i c) h = (h, omega arith)
Step-closing (entered a i k) h = cc
Step-closing (refused a i k) h = (h, omega arith)
Step-closing (left a i k c) h = (h, omega arith)
Step-closing (maintain c) h = (h, omega arith)
Step-closing (maintained a i) h = cc
Step-closing (maintenance_refused a i) h = (h, omega arith)
Step-closing (maintenance_left a i c) h = (h, omega arith)
Step-closing (close a i k c) h = (refl, omega arith)
Step-closing closed h = (h, omega arith)
Step-closing (close_left a i c) h = (h, omega arith)

-- Once the supervisor is closing it stays so, and no request gets inside any more: there are never
-- more of them than there were.
pub Steps-closing :
    {b b' : Barrier} → b.closing ≡ true → Steps b b' → (b'.closing ≡ true) × (b'.inside ≤ b.inside)
Steps-closing h here = (h, omega arith)
Steps-closing h (next s k) =
    let (c, le) = Steps-closing h s in
    let (c', le') = Step-closing k c in (c', omega (arith, le, le'))
