-- ===== src/Storage/Transaction.antt =====
-- storage/transaction.rs and the reads of storage/directory.rs: a store keeps one file, and
-- replaces
-- it by way of a pending file under a lock. Each call of the operating system, the wait for the
-- lock
-- and the look at the deadline enter as their outcomes.
pub mod Atomic
use ripmcp.Base.{
  ℕ, ◌*◌, Option, none, some, List, [], Bool, true, false, is_none, length, ltb, if◌then◌else◌,
}
use ripmcp.Base.Error.{Error, Result, new, configuration, ok, err, refuse, ok_or}
use ripmcp.Base.Order.{eqb, list_ord, nat_ord}
use ripmcp.Storage.Exec.{Exec, lift, pure, modify, get_state, ◌>>=◌, ◌>>◌}

abbrev pub Bytes : Type 0
Bytes = List ℕ

-- The store's file and `.{name}.pending`.
pub record Disk : Type 0 where
  pub file : Option Bytes
  pub pending : Option Bytes

pub record Outcomes : Type 0 where
  pub at_start : Result (Unit {0})
  pub open_directory : Result (Unit {0})
  pub lock_file : Result (Unit {0})
  pub acquire : Result (Unit {0})
  pub read : Result (Unit {0})
  pub remove : Result (Unit {0})
  pub create : Result (Unit {0})
  pub write : Result (Unit {0})
  -- what a failed write leaves
  pub written : Bytes
  pub sync : Result (Unit {0})
  pub before_replace : Result (Unit {0})
  pub metadata : Result (Unit {0})
  pub replace : Result (Unit {0})
  -- of the directory, after the rename
  pub sync_directory : Result (Unit {0})
  pub ledger : Result (Unit {0})

abbrev pub invalid : Error
invalid = new configuration "unsafe or inaccessible storage path"

unfoldable pub size_limit : ℕ
size_limit = 4 * 1024 * 1024

abbrev pub too_long : Option Bytes → Bool
too_long none = false
too_long (some bytes) = ltb size_limit (length bytes)

abbrev pub is_bytes : Option Bytes → Bytes → Bool
is_bytes none bytes = false
is_bytes (some previous) bytes = eqb previous bytes

-- `directory.read`
unfoldable pub read_file : Outcomes → Exec Disk (Option Bytes)
read_file o = do
  lift o.read
  disk ← get_state
  lift (refuse (too_long disk.file) invalid)
  pure disk.file

-- The pending file, made anew and filled.
unfoldable pub write_pending : Outcomes → Bytes → Exec Disk (Unit {0})
write_pending o bytes = do
  lift o.remove
  modify (λ d. record d { pending = none })
  lift o.create
  modify (λ d. record d { pending = some o.written })
  lift o.write
  modify (λ d. record d { pending = some bytes })
  lift o.sync

-- `Directory::replace`: the rename over the file, and then the sync of the directory.
abbrev pub directory_replace : Outcomes → Bytes → Exec Disk (Unit {0})
directory_replace o bytes = do
  lift o.replace
  modify (λ d. record { file = some bytes; pending = none })
  lift o.sync_directory

-- The pending file over the file, and the entry in the ledger of owned files.
unfoldable pub replace : Outcomes → Bytes → Exec Disk (Unit {0})
replace o bytes = do
  lift o.before_replace
  lift o.metadata
  directory_replace o bytes
  lift o.ledger

module _ {T : Type 0} where
  -- From the bytes that the change gives.
  unfoldable pub store_bytes : Outcomes → Option Bytes → Bytes → T → Exec Disk T
  store_bytes o previous bytes result = do
    lift (refuse (ltb size_limit (length bytes)) invalid)
    if is_bytes previous bytes
        then pure result
        else do write_pending o bytes; replace o bytes; pure result

  unfoldable pub update_with_deadline : Outcomes → (Option Bytes → Result (Bytes × T)) → Exec Disk T
  update_with_deadline o change = do
    lift o.at_start
    lift o.open_directory
    lift o.lock_file
    lift o.acquire
    previous ← read_file o
    (bytes, result) ← lift (change previous)
    store_bytes o previous bytes result
