-- ===== src/Storage/Transaction/Atomic.antt =====
-- storage/transaction.rs: an update happens as a whole or not at all, whichever step fails.
use ripmcp.Base.{◌≡◌, ◌⊎◌, Option, none, some, arith, true, ap}
use ripmcp.Base.Error.{Error, Result, ok, err}
use ripmcp.Base.Order.{eqb_iff, list_ord, nat_ord}
use ripmcp.Storage.Exec.{Exec}
use ripmcp.Storage.Transaction.{Bytes, Disk, Outcomes, read_file, write_pending, replace, is_bytes}

pub file-write_pending :
    (o : Outcomes) (bytes : Bytes) (d : Disk) → (write_pending o bytes d).1.file ≡ d.file
unfolding write_pending
file-write_pending o bytes d = ground arith

pub is_bytes-eq :
    (before : Option Bytes) (bytes : Bytes) → is_bytes before bytes ≡ true → before ≡ some bytes
is_bytes-eq none bytes h = cc
is_bytes-eq (some previous) bytes h = ap some ((eqb_iff previous bytes).0 h)

pub read_file_lem :
    (o : Outcomes) (d : Disk)
    → ((read_file o d).1 ≡ d) × ((b : Option Bytes) → (read_file o d).0 ≡ ok b → b ≡ d.file)
unfolding read_file
read_file_lem o d = (ground arith, λ b e. ground arith)

module _ (o : Outcomes) where
  -- Such an error comes after the rename: of the sync of the directory, or, after it, of the entry
  -- in the ledger.
  abbrev pub IsUnfinished : Error → Type 0
  IsUnfinished e =
      (o.replace ≡ ok tt)
      × ((o.sync_directory ≡ err e) ⊎ ((o.sync_directory ≡ ok tt) × (o.ledger ≡ err e)))

module _ {T : Type 0} (o : Outcomes) where
  -- On success the file holds the new bytes; on an error it is what it was, or holds the new bytes
  -- where the error came after the rename.
  abbrev pub Committed : Option Bytes → Bytes → T → Result T × Disk → Type 0
  Committed before bytes result (ok t, d) = (t ≡ result) × (d.file ≡ some bytes)
  Committed before bytes result (err e, d) =
      (d.file ≡ before) ⊎ (IsUnfinished o e × (d.file ≡ some bytes))

  -- What an update with this change does to the disk, and what it returns.
  abbrev pub Updated : (Option Bytes → Result (Bytes × T)) → Disk → Result T × Disk → Type 0
  Updated change d (ok t, d') =
      (bytes : Bytes) × (change d.file ≡ ok (bytes, t)) × (d'.file ≡ some bytes)
  Updated change d (err e, d') =
      (d'.file ≡ d.file)
      ⊎ ((bytes : Bytes) × (t : T) × (change d.file ≡ ok (bytes, t))
          × IsUnfinished o e
          × (d'.file ≡ some bytes))
