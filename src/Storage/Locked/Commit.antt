-- ===== src/Storage/Locked/Commit.antt =====
-- storage/transaction.rs: what a commit leaves, and what it has checked before.
use ripmcp.Base.{◌≡◌, ◌⊎◌, some}
use ripmcp.Base.Error.{Error, Result, ok, err}
use ripmcp.Base.Order.{list_ord, nat_ord}
use ripmcp.Storage.Exec.{Exec, lift, modify, ◌>>◌}
use ripmcp.Storage.Locked.{LockedStore, Interference, unchanged}
use ripmcp.Storage.Transaction.{Bytes, Disk, Outcomes, directory_replace}
use ripmcp.Storage.Transaction.Atomic.{IsUnfinished}

module _ (o : Outcomes) (i : Interference) (locked : LockedStore) (bytes : Bytes) (d : Disk) where
  -- On success the file was still the one that was locked at both looks.
  abbrev pub IsCommitted : Result (Unit {0}) × Disk → Type 0
  IsCommitted (ok _, d') =
      (i.early d.file ≡ locked.previous)
      × (i.others (i.early d.file) ≡ locked.previous)
      × (d'.file ≡ some bytes)
  IsCommitted (err e, d') =
      (d'.file ≡ d.file)
      ⊎ ((d'.file ≡ i.early d.file)
          ⊎ ((i.early d.file ≡ locked.previous)
              × ((d'.file ≡ i.others (i.early d.file))
                  ⊎ ((i.others (i.early d.file) ≡ locked.previous)
                      × ((d'.file ≡ i.late (i.others (i.early d.file)))
                          ⊎ (IsUnfinished o e × (d'.file ≡ some bytes)))))))

  -- From the last change of others on.
  abbrev end : Exec Disk (Unit {0})
  end =
      modify (λ d. record d { file = i.late d.file })
      >> (directory_replace o bytes >> lift o.ledger)

  -- From the new bytes in the pending file on.
  abbrev rest : Exec Disk (Unit {0})
  rest =
      modify (λ d. record d { file = i.others d.file })
      >> (lift o.before_replace >> (unchanged i.second o locked >> (lift o.metadata >> end)))
