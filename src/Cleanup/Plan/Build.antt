-- ===== src/Cleanup/Plan/Build.antt =====
-- cleanup/plan.rs and install/target.rs: the making of a plan, with nothing changed.
use ripmcp.Base.{
  Bool, true, false, not, ◌&&◌, Option, none, some, List, [], ◌∷◌, ◌++◌, is_none, String,
  if◌then◌else◌,
}
use ripmcp.Base.BTreeMap.{get, contains_key}
use ripmcp.Base.Error.{Result, new, configuration, ok, refuse, ok_or, is_ok, ◌>>=◌, ◌>>◌}
use ripmcp.Base.FilePath.{FilePath, normal}
use ripmcp.Base.Order.{list_ord, nat_ord}
use ripmcp.Base.Text.{Text, codes}
use ripmcp.Config.Effective.{Source, Effective, authorize, or_default, parse_or_default}
use ripmcp.Config.Project.{Project}
use ripmcp.Config.Types.{Configuration}
use ripmcp.Cleanup.Plan.{Preserved, Listed, plan_resources}
use ripmcp.Cleanup.Plan.Resolve.{resolve}
use ripmcp.Cleanup.Remove.{changed}
use ripmcp.Ownership.Model.{ResourceIdentity, Installation, Journal, Artifacts}
use ripmcp.Storage.Transaction.{Bytes}

pub record Request : Type 0 where
  pub project : Bool
  pub clean : Bool
  pub approval : Text

pub record Plan : Type 0 where
  pub server : Text
  pub scope : Source
  pub installation : Option Text
  pub configuration_digest : Text
  pub ownership_digest : Text
  pub actions : List String
  pub deletable : List ResourceIdentity
  pub preserved : List Preserved
  pub retry : List Text
  pub shadowed_by_trusted_project : Bool
  pub project_reapproval_required : Bool
  pub retry_cwd : FilePath

-- What `build` reads and calls, each with its outcome.
pub record Readings : Type 0 where
  pub effective : Result Effective
  pub config_directory : Result FilePath
  pub open_store : Source → Result (Unit {0})
  pub store_bytes : Source → Result (Option Bytes)
  pub parse : Bytes → Result Configuration
  pub is_approved : Project → Result Bool
  pub journal : Result Journal
  pub digest : Bytes → Text
  pub journal_digest : Journal → Result Text
  pub canonical_cwd : Result FilePath
  pub artifacts : Result Artifacts

-- `validate_scope` of install/target.rs
unfoldable pub validate_scope : (Project → Result Bool) → Effective → Bool → Result (Unit {0})
validate_scope is_approved effective false = ok tt
validate_scope is_approved effective true = do
  selected ←
      ok_or effective.project (new configuration "project scope requires a discovered project")
  approved ← is_approved selected
  refuse (not approved)
      (new configuration "trust project before processing installation definitions")

unfoldable pub scope : Effective → Result FilePath → Bool → Result Source
scope effective directory true = do
  project ← ok_or effective.project changed
  ok (Source.project project.root)
scope effective directory false = do
  path ← directory
  ok (Source.user (path ++ (normal (codes "config.json") ∷ [])))

abbrev pub has_server_of : Option Project → Text → Bool
has_server_of none name = false
has_server_of (some project) name = contains_key name project.configuration.servers

abbrev pub id_of : Option Installation → Option Text
id_of none = none
id_of (some entry) = some entry.id

abbrev pub actions_of : Bool → List String
actions_of clean =
    "stop_selected_owned_process"
    ∷ "unregister_selected_scope"
    ∷ (if clean then "delete_tracked_exclusive_resources" ∷ [] else [])

abbrev pub retry_of : Text → Bool → Bool → List Text
retry_of name project clean =
    codes "ripmcp"
    ∷ codes "uninstall"
    ∷ name
    ∷ codes (if project then "--project" else "--user")
    ∷ (if clean then codes "--clean" ∷ codes "-y" ∷ [] else [])

-- The resources of the installation; the ledger is read only if there is one.
abbrev pub list_installation :
    Result Artifacts → Bool → Journal → Option Installation → Result Listed
list_installation artifacts clean journal none = ok (record { deletable = []; preserved = [] })
list_installation artifacts clean journal (some entry) = do
  files ← artifacts
  ok (plan_resources clean journal files entry.id entry)

-- `Plan::build`, from the reading of the journal on.
unfoldable pub build_for :
    Readings → Text → Request → Effective → Source → Option Bytes → Configuration → Result Plan
build_for w name request effective selected bytes config = do
  journal ← w.journal
  installation ← resolve journal selected name (get name config.servers)
  refuse (not (contains_key name config.servers) && is_none installation) (
      new configuration
        "server is not registered and has no retained cleanup record in selected scope")
  ownership_digest ← w.journal_digest journal
  cwd ← w.canonical_cwd
  listed ← list_installation w.artifacts request.clean journal installation
  ok (record {
    server = name;
    scope = selected;
    installation = id_of installation;
    configuration_digest = w.digest (or_default bytes []);
    ownership_digest = ownership_digest;
    actions = actions_of request.clean;
    deletable = listed.deletable;
    preserved = listed.preserved;
    retry = retry_of name request.project request.clean;
    shadowed_by_trusted_project =
        not request.project
        && has_server_of effective.project name
        && is_ok (authorize effective name);
    project_reapproval_required = request.project && contains_key name config.servers;
    retry_cwd = cwd;
  })

-- `Plan::build`
unfoldable pub build : Readings → Text → Request → Result Plan
unfolding validate_scope scope build_for
build w name request = do
  effective ← w.effective
  selected ← scope effective w.config_directory request.project
  w.open_store selected
  bytes ← w.store_bytes selected
  config ← parse_or_default w.parse bytes
  if contains_key name config.servers
      then validate_scope w.is_approved effective request.project
      else ok tt
  build_for w name request effective selected bytes config
