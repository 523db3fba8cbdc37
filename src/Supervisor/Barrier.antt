-- ===== src/Supervisor/Barrier.antt =====
-- supervisor/barrier.rs: the gate that requests pass, and that maintenance and the end of the
-- supervisor close. A task runs between any two steps of others, so that each wait for the lock and
-- each look at `closing` is a step of its own; the lock is tokio's, shared by readers or held alone.
pub mod Closed
use ripmcp.Base.{ℕ, zero, suc, ◌+◌, Bool, true, false, ◌≡◌}

-- Who holds the lock alone.
pub data Holder : Type 0 where
  nobody arriving maintenance closer : Holder

-- `arriving` tasks of `enter` hold the lock and have not looked at `closing`.
pub record Barrier : Type 0 where
  pub arriving : ℕ
  pub inside : ℕ
  pub holder : Holder
  pub closing : Bool

abbrev pub barrier : ℕ → ℕ → Holder → Bool → Barrier
barrier a i h c = record { arriving = a; inside = i; holder = h; closing = c }

pub data Step : Barrier → Barrier → Type 0 where
  -- `enter`: the lock, then `check`
  enter : (a i : ℕ) (c : Bool) → Step (barrier a i nobody c) (barrier (suc a) i nobody c)
  entered : (a i : ℕ) (h : Holder) → Step (barrier (suc a) i h false) (barrier a (suc i) h false)
  refused : (a i : ℕ) (h : Holder) → Step (barrier (suc a) i h true) (barrier a i h true)
  -- the guard of `enter` is dropped
  left : (a i : ℕ) (h : Holder) (c : Bool) → Step (barrier a (suc i) h c) (barrier a i h c)
  -- `maintenance`: the lock, then `check`, then its guard is dropped
  maintain : (c : Bool) → Step (barrier 0 0 nobody c) (barrier 0 0 arriving c)
  maintained : (a i : ℕ) → Step (barrier a i arriving false) (barrier a i maintenance false)
  maintenance_refused : (a i : ℕ) → Step (barrier a i arriving true) (barrier a i nobody true)
  maintenance_left : (a i : ℕ) (c : Bool) → Step (barrier a i maintenance c) (barrier a i nobody c)
  -- `close`: the flag, then the lock, then its guard is dropped
  close : (a i : ℕ) (h : Holder) (c : Bool) → Step (barrier a i h c) (barrier a i h true)
  closed : Step (barrier 0 0 nobody true) (barrier 0 0 closer true)
  close_left : (a i : ℕ) (c : Bool) → Step (barrier a i closer c) (barrier a i nobody c)

pub data Steps (start : Barrier) : Barrier → Type 0 where
  here : Steps start start
  next : {b b' : Barrier} → Steps start b → Step b b' → Steps start b'

abbrev pub initial : Barrier
initial = barrier 0 0 nobody false
