-- ===== src/Ownership/Store/Refines.antt =====
-- ownership/mod.rs: an update of the file is the change of the journal that it holds.
use ripmcp.Base.{◌≡◌, ◌⊎◌, Option, some}
use ripmcp.Base.Error.{Result, ok, err}
use ripmcp.Config.Url.{UrlCrate}
use ripmcp.Ownership.Model.{Journal}
use ripmcp.Ownership.Store.{JournalCodec, read_journal}
use ripmcp.Storage.Exec.{after}
use ripmcp.Storage.Locked.{Interference}
use ripmcp.Storage.Transaction.{Bytes, Disk, Outcomes}
use ripmcp.Storage.Transaction.Atomic.{IsUnfinished}

module _ (U : UrlCrate) (codec : JournalCodec) where
  -- What is written is read again as the journal that it was written from.
  abbrev pub IsFaithful : Type 0
  IsFaithful =
      (j : Journal) (bytes : Bytes)
      → codec.to_vec_pretty j ≡ ok bytes
      → codec.from_slice bytes ≡ some j

  module _ {R : Type 0} (change : Journal → Result (R × Journal)) where
    -- The change of the journal in the first file gives the result and the journal in the second.
    pub record IsChanged (before after : Option Bytes) (result : R) : Type 0 where
      pub old : Journal
      pub new : Journal
      pub was : read_journal U codec before ≡ ok old
      pub made : change old ≡ ok (result, new)
      pub is : read_journal U codec after ≡ ok new

    -- What an update with these outcomes and interferences does.
    abbrev pub IsUpdated : Outcomes → Interference → Disk → Result R × Disk → Type 0
    IsUpdated o i d (ok result, d') =
        (i.early d.file ≡ d.file)
        × (i.others (i.early d.file) ≡ d.file)
        × IsChanged d.file d'.file result
    IsUpdated o i d (err e, d') =
        (d'.file ≡ d.file)
        ⊎ ((d'.file ≡ i.early d.file)
            ⊎ ((i.early d.file ≡ d.file)
                × ((d'.file ≡ i.others (i.early d.file))
                    ⊎ ((i.others (i.early d.file) ≡ d.file)
                        × ((d'.file ≡ i.late (i.others (i.early d.file)))
                            ⊎ ((result : R) × IsUnfinished o e
                                × IsChanged d.file d'.file result))))))
