-- ===== src/Config/Mutation/Laws.antt =====
-- config/mutation.rs: what a mutation writes, and when it may.
use ripmcp.Base.{Bool, true, ◌≡◌, ◌≢◌, ◌⊎◌, ◌↔◌, Option, some}
use ripmcp.Base.Error.{Result, ok, err}
use ripmcp.Base.Order.{list_ord, nat_ord}
use ripmcp.Base.Text.{Text}
use ripmcp.Config.Effective.{Effective, parse_or_default}
use ripmcp.Config.Mutation.{
  WriteScope, MutationReport, Codec, is_project, check_project_bytes, new_bytes,
}
use ripmcp.Config.Project.{Project}
use ripmcp.Config.Types.{Configuration}
use ripmcp.Storage.Transaction.{Bytes, Disk, Outcomes}
use ripmcp.Storage.Transaction.Atomic.{IsUnfinished}

-- A change of a project's file is made to the bytes of the project that was selected and is
-- approved.
abbrev pub IsPermitted : (Project → Result Bool) → Effective → WriteScope → Option Bytes → Type 0
IsPermitted is_approved effective WriteScope.user file = Unit
IsPermitted is_approved effective WriteScope.project file =
    (p : Project) × (effective.project ≡ some p) × (is_approved p ≡ ok true) × (file ≡ some p.bytes)

-- What the change of the bytes that were there comes to.
record Changed (codec : Codec) {R : Type 0} (effective : Effective) (scope : WriteScope)
    (change : Configuration → Result (R × Configuration)) (file : Option Bytes) (bytes : Bytes)
    (r : R) (changed : Bool) : Type 0 where
  config : Configuration
  config' : Configuration
  checked : check_project_bytes effective scope file ≡ ok tt
  parsed : parse_or_default codec.parse file ≡ ok config
  made : change config ≡ ok (r, config')
  validated : codec.validate config' ≡ ok tt
  written : bytes ≡ (new_bytes codec file config config').0
  flag : changed ≡ (new_bytes codec file config config').1

-- The file holds the configuration that the change makes of the one that was there, and that
-- configuration is valid.
abbrev pub IsWritten :
    {R : Type 0}
    → Codec
    → (Configuration → Result (R × Configuration))
    → Option Bytes
    → R
    → Option Bytes
    → Type 0
IsWritten codec change file r file' =
    (config : Configuration) × (config' : Configuration) × (parse_or_default codec.parse file
      ≡ ok config)
    × (change config ≡ ok (r, config'))
    × (codec.validate config' ≡ ok tt)
    × (file' ≡ some (new_bytes codec file config config').0)

-- The outcome of a mutation.
abbrev pub Mutated :
    {R : Type 0}
    → Codec
    → Outcomes
    → (Project → Result Bool)
    → Effective
    → WriteScope
    → (Configuration → Result (R × Configuration))
    → Disk
    → Result (R × MutationReport) × Disk
    → Type 0
Mutated {R} codec o is_approved effective scope change disk (ok (r, report), disk') =
    IsPermitted is_approved effective scope disk.file
    × IsWritten codec change disk.file r disk'.file
    × ((report.project_reapproval_required ≡ true)
        ↔ ((is_project scope ≡ true) × (disk.file ≢ disk'.file)))
Mutated {R} codec o is_approved effective scope change disk (err e, disk') =
    (disk'.file ≡ disk.file)
    ⊎ (IsUnfinished o e
        × IsPermitted is_approved effective scope disk.file
        × ((r : R) × IsWritten codec change disk.file r disk'.file))
