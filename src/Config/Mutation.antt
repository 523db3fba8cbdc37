-- ===== src/Config/Mutation.antt =====
-- config/mutation.rs: a change of one configuration file.
pub mod Laws
use ripmcp.Base.{Bool, true, false, not, ◌&&◌, ◌||◌, Option, none, some, [], ◌∷◌, if◌then◌else◌}
use ripmcp.Base.BTreeMap.{contains_key}
use ripmcp.Base.BTreeMap
use ripmcp.Base.Error.{Result, new, configuration, ok, err, refuse, ok_or, ◌>>=◌, ◌>>◌}
use ripmcp.Base.FilePath.{FilePath, component_ord}
use ripmcp.Base.Order.{eqb, list_ord, nat_ord}
use ripmcp.Base.Text.{Text}
use ripmcp.Config.Effective.{Effective, parse_or_default}
use ripmcp.Config.Project.{Project}
use ripmcp.Config.Types.{Configuration, Server}
use ripmcp.Storage.Exec.{Exec}
use ripmcp.Storage.Transaction.{Bytes, Disk, Outcomes, update_with_deadline}

pub data WriteScope : Type 0 where
  user project : WriteScope

pub record MutationReport : Type 0 where
  pub shadowed_by_trusted_project : Bool
  pub project_reapproval_required : Bool

abbrev pub is_project : WriteScope → Bool
is_project user = false
is_project project = true

abbrev pub same_bytes : Option Bytes → Option Bytes → Bool
same_bytes none none = true
same_bytes (some a) (some b) = eqb a b
same_bytes _ _ = false

abbrev pub bytes_of : Option Project → Option Bytes
bytes_of none = none
bytes_of (some p) = some p.bytes

-- Equality of `(root, digest)` of two projects that may be missing.
abbrev pub same_project : Option Project → Option Project → Bool
same_project none none = true
same_project (some a) (some b) = eqb a.root b.root && eqb a.digest b.digest
same_project _ _ = false

-- Parsing, the two ways in which serde_json writes a configuration, validation.
pub record Codec : Type 0 where
  pub parse : Bytes → Result Configuration
  pub validate : Configuration → Result (Unit {0})
  pub to_vec : Configuration → Bytes
  pub to_vec_pretty : Configuration → Bytes

unfoldable pub check_project_bytes : Effective → WriteScope → Option Bytes → Result (Unit {0})
check_project_bytes effective scope bytes =
    refuse (is_project scope && not (same_bytes bytes (bytes_of effective.project)))
      (new configuration "project changed; reload and renew trust before writing")

abbrev pub has_server : Text → Project → Bool
has_server name p = contains_key name p.configuration.servers

-- Whether a trusted project of the moment has a server of that name. The approval is only looked at
-- where it does.
unfoldable pub is_shadowed :
    (Project → Result Bool) → WriteScope → Text → Option Project → Result Bool
is_shadowed is_approved project name current = ok false
is_shadowed is_approved user name none = ok false
is_shadowed is_approved user name (some current) =
    if has_server name current then is_approved current else ok false

-- The choice of the store and its opening, which in the project's case wants the project's
-- approval.
unfoldable pub select_store :
    Result (Unit {0}) → (Project → Result Bool) → Effective → WriteScope → Result (Unit {0})
select_store opened is_approved effective user = opened
select_store opened is_approved effective project = do
  selected ←
      ok_or effective.project (new configuration "project scope requires a discovered project")
  approved ← is_approved selected
  refuse (not approved) (new configuration "trust project before modifying its configuration")
  opened

-- The report on a finished update.
abbrev pub with_report :
    {R : Type 0} → WriteScope → Bool → Result (R × Bool) → Result (R × MutationReport)
with_report scope shadowed (ok (result, changed)) = ok (
  result,
  record {
    shadowed_by_trusted_project = shadowed;
    project_reapproval_required = is_project scope && changed;
  },
)
with_report scope shadowed (err e) = err e

-- What `mutate_with_deadline` decides before it opens the store: whether the server is shadowed.
unfoldable pub prepare :
    Result (Unit {0})
    → Result (Option Project)
    → Result (Unit {0})
    → (Project → Result Bool)
    → Effective
    → WriteScope
    → Text
    → Result Bool
prepare deadline discovered opened is_approved effective scope name = do
  deadline
  current ← discovered
  shadowed ← is_shadowed is_approved scope name current
  refuse (is_project scope && not (same_project current effective.project))
      (new configuration "selected project changed; reload and renew trust before writing")
  select_store opened is_approved effective scope
  ok shadowed

module _ (codec : Codec) where
  -- What is written under the lock, and whether that changes the file.
  unfoldable pub new_bytes : Option Bytes → Configuration → Configuration → Bytes × Bool
  new_bytes bytes before config =
      let output = codec.to_vec_pretty config in
      elim bytes [
        | none ↦ (output, true)
        | some old ↦
            if eqb (codec.to_vec before) (codec.to_vec config)
            then (old, false)
            else (output, not (eqb old output))
      ]

  unfoldable pub change_bytes :
      {R : Type 0}
      → Effective
      → WriteScope
      → (Configuration → Result (R × Configuration))
      → Option Bytes
      → Result (Bytes × (R × Bool))
  change_bytes effective scope change bytes = do
    check_project_bytes effective scope bytes
    config ← parse_or_default codec.parse bytes
    (result, config') ← change config
    codec.validate config'
    let written = new_bytes bytes config config'
    ok (written.0, (result, written.1))

  -- On the disk of the selected store.
  unfoldable pub mutate_with_deadline :
      {R : Type 0}
      → Outcomes
      → Result (Unit {0})
      → Result (Option Project)
      → Result (Unit {0})
      → (Project → Result Bool)
      → Effective
      → WriteScope
      → Text
      → (Configuration → Result (R × Configuration))
      → Exec Disk (R × MutationReport)
  mutate_with_deadline o deadline discovered opened is_approved effective scope name change disk =
      elim (prepare deadline discovered opened is_approved effective scope name) [
        | err e ↦ (err e, disk)
        | ok shadowed ↦
            let (result, disk') =
              update_with_deadline o (change_bytes effective scope change) disk in
            (with_report scope shadowed result, disk')
      ]

-- `Configuration::register`
unfoldable pub register : Text → Server → Configuration → Result (Unit {0} × Configuration)
register name server config = do
  refuse (contains_key name config.servers)
      (new configuration "server already exists in target scope")
  ok (tt, record config { servers = BTreeMap.insert name server config.servers })
