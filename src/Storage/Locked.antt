-- ===== src/Storage/Locked.antt =====
-- storage/transaction.rs: a store that stays locked over an installation or a removal, and its
-- commit
-- of new bytes. Whoever does not take the lock may change the file until the rename.
pub mod Commit
use ripmcp.Base.{Option, none, some, List, Bool, true, false, not, length, ltb}
use ripmcp.Base.Error.{Error, Result, new, configuration, refuse}
use ripmcp.Base.Order.{eqb, list_ord, nat_ord}
use ripmcp.Storage.Exec.{Exec, lift, pure, modify, ◌>>=◌, ◌>>◌}
use ripmcp.Storage.Transaction.{
  Bytes, Disk, Outcomes, invalid, size_limit, read_file, write_pending, directory_replace,
}

-- `LockedStore`, by the bytes that it found.
pub record LockedStore : Type 0 where
  pub previous : Option Bytes

abbrev pub changed_file : Error
changed_file =
    new configuration "configuration changed during installation; retry without overwriting it"

abbrev pub same_file : Option Bytes → Option Bytes → Bool
same_file none none = true
same_file (some a) (some b) = eqb a b
same_file _ _ = false

-- `Store::lock`: the directory, the lock's file, the wait for the lock.
unfoldable pub lock : Outcomes → Exec Disk LockedStore
lock o = do
  lift o.at_start
  lift o.open_directory
  lift o.lock_file
  lift o.acquire
  previous ← read_file o
  pure (record { previous = previous })

-- `LockedStore::unchanged`; the first argument is whether the path still leads to the directory.
unfoldable pub unchanged : Result (Unit {0}) → Outcomes → LockedStore → Exec Disk (Unit {0})
unchanged same_directory o locked = do
  lift same_directory
  current ← read_file o
  lift (refuse (not (same_file current locked.previous)) changed_file)

-- Whether the directory is still the same at the first and at the second look, and what others make
-- of the file before the first look, between the looks, and between the second look and the rename.
pub record Interference : Type 0 where
  pub first : Result (Unit {0})
  pub second : Result (Unit {0})
  pub early : Option Bytes → Option Bytes
  pub others : Option Bytes → Option Bytes
  pub late : Option Bytes → Option Bytes

-- `commit_created`
unfoldable pub commit : Outcomes → Interference → LockedStore → Bytes → Exec Disk (Unit {0})
commit o i locked bytes = do
  lift (refuse (ltb size_limit (length bytes)) invalid)
  modify (λ d. record d { file = i.early d.file })
  unchanged i.first o locked
  write_pending o bytes
  modify (λ d. record d { file = i.others d.file })
  lift o.before_replace
  unchanged i.second o locked
  lift o.metadata
  modify (λ d. record d { file = i.late d.file })
  directory_replace o bytes
  lift o.ledger
