-- ===== src/Config/Effective.antt =====
-- config/effective.rs: the servers in effect, those of a project over those of the user.
pub mod Laws
use ripmcp.Base.{
  Bool, true, false, not, Option, none, some, List, [], ◌∷◌, map, is_some, if◌then◌else◌,
}
use ripmcp.Base.BTreeMap.{BTreeMap, BTreeSet, get, contains_key}
use ripmcp.Base.BTreeMap
use ripmcp.Base.Error.{Result, new, configuration, ok, err, refuse, ok_or, ◌>>=◌, ◌>>◌}
use ripmcp.Base.FilePath.{FilePath, root_dir}
use ripmcp.Base.Order.{list_ord, nat_ord}
use ripmcp.Base.Text.{Text}
use ripmcp.Config.Project.{Project}
use ripmcp.Config.Types.{Definition, local, Server, Timeouts, Configuration}
use ripmcp.Storage.Transaction.{Bytes}

pub data Source : Type 0 where
  user : FilePath → Source
  project : FilePath → Source

pub record Identity : Type 0 where
  pub source : Source
  pub name : Text
  pub configuration_digest : Text

pub record Entry : Type 0 where
  pub identity : Identity
  pub server : Server
  pub trust_required : Bool

pub record Effective : Type 0 where
  pub entries : BTreeMap Text Entry
  pub timeouts : Timeouts
  pub project : Option Project
  pub start : FilePath

pub record ServerReport : Type 0 where
  pub name : Text
  pub provenance : Source
  pub enabled : Bool
  pub trust_required : Bool

abbrev pub default_timeouts : Timeouts
default_timeouts = record { operation_seconds = 60; login_seconds = 300 }

abbrev pub default_configuration : Configuration
default_configuration = record { servers = []; timeouts = none }

-- `insert`, for the entries of one configuration.
abbrev pub entry_of : Source → Text → Bool → Text → Server → Entry
entry_of source digest trust_required name server = record {
  identity = record { source = source; name = name; configuration_digest = digest };
  server = server;
  trust_required = trust_required;
}

unfoldable pub insert :
    BTreeMap Text Entry → BTreeMap Text Server → Source → Text → Bool → BTreeMap Text Entry
insert entries [] source digest trust_required = entries
insert entries ((name, server) ∷ servers) source digest trust_required =
    insert (BTreeMap.insert name (entry_of source digest trust_required name server) entries)
      servers source digest trust_required

-- `Effective::staged`
unfoldable pub staged : Identity → Server → Effective
staged identity server = record {
  entries =
      (identity.name, record { identity = identity; server = server; trust_required = false }) ∷ [];
  timeouts = default_timeouts;
  project = none;
  start = root_dir ∷ [];
}

unfoldable pub identity : Effective → Text → Result Identity
identity effective name = elim (get name effective.entries) [
  | none ↦ err (new configuration "server is not configured")
  | some entry ↦ ok entry.identity
]

abbrev pub is_local_definition : Definition → Bool
is_local_definition (local l) = true
is_local_definition _ = false

unfoldable pub is_local : Effective → Text → Bool
is_local effective name = elim (get name effective.entries) [
  | none ↦ false
  | some entry ↦ is_local_definition entry.server.definition
]

-- What `load` reads: the user's file, the project found from the directory, its approval, the two
-- canonical paths. `digest` is SHA-256 in hexadecimal.
pub record Surroundings : Type 0 where
  pub user_bytes : Result (Option Bytes)
  pub discovered : Result (Option Project)
  pub is_approved : Project → Result Bool
  pub canonical_user_path : Bool → Result FilePath
  pub canonical_start : Result FilePath

abbrev pub or_default {ℓ} : {A : Type ℓ} → Option A → A → A
or_default none d = d
or_default (some a) d = a

-- `bytes.map(Configuration::parse).transpose()?.unwrap_or_default()`
abbrev pub parse_or_default : (Bytes → Result Configuration) → Option Bytes → Result Configuration
parse_or_default parse none = ok default_configuration
parse_or_default parse (some bytes) = parse bytes

abbrev pub trust_of : (Project → Result Bool) → Option Project → Result Bool
trust_of is_approved none = ok false
trust_of is_approved (some p) = is_approved p

abbrev pub add_project : BTreeMap Text Entry → Option Project → Bool → BTreeMap Text Entry
add_project entries none trusted = entries
add_project entries (some p) trusted =
    insert entries p.configuration.servers (Source.project p.root) p.digest (not trusted)

abbrev pub effective_timeouts : Configuration → Option Project → Bool → Timeouts
effective_timeouts config none trusted = or_default config.timeouts default_timeouts
effective_timeouts config (some p) trusted =
    let mine = or_default config.timeouts default_timeouts in
    if trusted then or_default p.configuration.timeouts mine else mine

module _ (parse : Bytes → Result Configuration) (digest : Bytes → Text) (w : Surroundings) where
  -- `Effective::load`
  unfoldable pub load : Result Effective
  load = do
    bytes ← w.user_bytes
    config ← parse_or_default parse bytes
    found ← w.discovered
    trusted ← trust_of w.is_approved found
    path ← w.canonical_user_path (is_some bytes)
    start ← w.canonical_start
    ok (record {
      entries =
          add_project
            (insert [] config.servers (Source.user path) (digest (or_default bytes [])) false) found
            trusted;
      timeouts = effective_timeouts config found trusted;
      project = found;
      start = start;
    })

unfoldable pub reports : Effective → List ServerReport
reports effective =
    map
      (λ (name, entry). record {
        name = name;
        provenance = entry.identity.source;
        enabled = entry.server.enabled;
        trust_required = entry.trust_required;
      })
      effective.entries

-- `Effective::authorize`; an `AuthorizedServer` is the entry.
unfoldable pub authorize : Effective → Text → Result Entry
authorize effective name = do
  entry ← ok_or (get name effective.entries) (new configuration "server is not configured")
  refuse entry.trust_required (new configuration "project trust required; run trust in a terminal")
  ok entry

abbrev pub is_disabled : BTreeSet Text → Option Text → Bool
is_disabled tools none = false
is_disabled tools (some tool) = contains_key tool tools

unfoldable pub require_enabled : Entry → Option Text → Result (Unit {0})
require_enabled entry tool = do
  refuse (not entry.server.enabled) (new configuration "server is disabled")
  refuse (is_disabled entry.server.disabled_tools tool) (new configuration "tool is disabled")
