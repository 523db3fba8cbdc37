-- ===== src/Ownership/Store.antt =====
-- ownership/mod.rs: the store of the journal, a file that each update reads under its lock.
pub mod Refines
use ripmcp.Base.{Option, none, some, []}
use ripmcp.Base.BTreeMap.{get}
use ripmcp.Base.BTreeMap
use ripmcp.Base.Error.{Result, ok, err, ok_or, ◌>>=◌, ◌>>◌}
use ripmcp.Base.Order.{list_ord, nat_ord}
use ripmcp.Base.Text.{Text}
use ripmcp.Config.Url.{UrlCrate}
use ripmcp.Ownership.Model.{
  InstallationId, Installation, Registration, Executable, Journal, Operation,
}
use ripmcp.Ownership.Validation.{invalid, validate_journal}
use ripmcp.Storage.Exec
use ripmcp.Storage.Exec.{Exec}
use ripmcp.Storage.Locked.{LockedStore, Interference, lock, commit}
use ripmcp.Storage.Transaction.{Bytes, Disk, Outcomes}

-- serde_json's reading and writing of a journal.
pub record JournalCodec : Type 0 where
  pub from_slice : Bytes → Option Journal
  pub to_vec_pretty : Journal → Result Bytes

abbrev pub default_journal : Journal
default_journal = record { installations = []; operations = []; executable = Executable.unknown }

abbrev pub parse_journal : JournalCodec → Option Bytes → Result Journal
parse_journal codec none = ok default_journal
parse_journal codec (some bytes) = ok_or (codec.from_slice bytes) invalid

module _ (U : UrlCrate) (codec : JournalCodec) where
  -- `OwnershipStore::read`, of what the file has.
  unfoldable pub read_journal : Option Bytes → Result Journal
  read_journal bytes = do
    journal ← parse_journal codec bytes
    validate_journal U journal
    ok journal

  -- From the journal in the file to the result of the change and the bytes to write.
  unfoldable pub changed_journal :
      {R : Type 0} → (Journal → Result (R × Journal)) → Option Bytes → Result (R × Bytes)
  unfolding read_journal
  changed_journal change previous = do
    journal ← read_journal previous
    (result, journal) ← change journal
    validate_journal U journal
    bytes ← codec.to_vec_pretty journal
    ok (result, bytes)

  abbrev pub commit_change :
      {R : Type 0} → Outcomes → Interference → LockedStore → R × Bytes → Exec Disk R
  commit_change o i locked (result, bytes) =
      Exec.◌>>=◌ (commit o i locked bytes) (λ _. Exec.pure result)

  -- `OwnershipStore::update_async`
  unfoldable pub update_async :
      {R : Type 0} → Outcomes → Interference → (Journal → Result (R × Journal)) → Exec Disk R
  unfolding changed_journal
  update_async o i change = Exec.◌>>=◌ (lock o) λ locked.
      Exec.◌>>=◌ (Exec.lift (changed_journal change locked.previous)) (commit_change o i locked)

-- `Journal::unregister`
unfoldable pub unregister : Text → Journal → Result (Unit {0} × Journal)
unregister id journal = do
  entry ← ok_or (get id journal.installations) invalid
  ok (
    tt,
    record journal {
      installations =
          BTreeMap.insert id (record entry { registration = Registration.unregistered })
            journal.installations;
    },
  )
