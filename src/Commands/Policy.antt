-- ===== src/Commands/Policy.antt =====
-- tools/policy.rs: a server or a tool is enabled or disabled. The answer of the supervisor is a
-- result.
pub mod Exact
use ripmcp.Base.{
  Bool, true, false, not, ◌&&◌, ◌||◌, Option, none, some, [], ◌∷◌, is_empty, if◌then◌else◌,
}
use ripmcp.Base.BTreeMap.{get, contains_key}
use ripmcp.Base.BTreeMap
use ripmcp.Base.Error.{
  ErrorKind, Error, Result, new, configuration, ok, err, refuse, ok_or, ◌>>=◌, ◌>>◌,
}
use ripmcp.Base.Order.{list_ord, nat_ord}
use ripmcp.Base.Text.{Text, codes}
use ripmcp.Commands.{array_of, complete}
use ripmcp.Config.Effective.{
  Source, Entry, Effective, authorize, default_configuration, parse_or_default,
}
use ripmcp.Config.Project.{Project}
use ripmcp.Config.Same.{same_bool, same_server}
use ripmcp.Config.Types.{Server, Configuration}
use ripmcp.Json.{Value, Items, index, is_str}
use ripmcp.Storage.Transaction.{Bytes}

-- `cli::Policy`
pub record Policy : Type 0 where
  pub server : Text
  pub tool : Option Text
  pub project : Bool

abbrev pub unknown_server : Error
unknown_server = new configuration "server is not configured in target scope"

abbrev pub unknown_tool : Error
unknown_tool = new ErrorKind.usage "tool was not found in target server"

abbrev pub changed_target : Error
changed_target = new configuration "target changed during policy validation"

-- `target`; the bytes are those of the user's file.
unfoldable pub target :
    (Bytes → Result Configuration) → Result (Option Bytes) → Effective → Policy → Result Server
target parse user_bytes effective policy = do
  config ←
      if policy.project
      then ok_or effective.project (new configuration "project scope requires a discovered project")
        >>= (λ (p : Project). ok p.configuration)
      else user_bytes >>= parse_or_default parse
  ok_or (get policy.server config.servers) unknown_server

abbrev pub is_project_source : Source → Bool
is_project_source (Source.user p) = false
is_project_source (Source.project p) = true

-- Whether a tool of that name is listed.
unfoldable pub lists_tool : Text → Items → Bool
lists_tool tool Items.nil = false
lists_tool tool (Items.cons entry entries) =
    let rest = lists_tool tool entries in is_str (index entry (codes "name")) tool || rest

-- `validate_tool`
unfoldable pub validate_tool : Effective → Result Value → Policy → Server → Text → Result (Unit {0})
unfolding lists_tool
validate_tool effective listing policy server tool =
    if contains_key tool server.disabled_tools
    then ok tt
    else authorize effective policy.server >>= λ (entry : Entry).
        refuse
          (not (same_bool (is_project_source entry.identity.source) policy.project)
            || not (same_server entry.server server))
          (new configuration "tool target is shadowed; run outside the overriding project")
        >> (listing >>= λ value.
            if lists_tool tool (array_of value (codes "tools"))
            then ok tt
            else complete value >> err unknown_tool)

-- The checks of `run` before the configuration is changed.
unfoldable pub check_policy : Effective → Result Value → Policy → Server → Result (Unit {0})
unfolding validate_tool
check_policy effective listing policy server = elim policy.tool [
  | none ↦ ok tt
  | some tool ↦
      validate_tool effective listing policy server tool >> refuse (is_empty tool) unknown_tool
]

abbrev pub set_policy : Option Text → Bool → Server → Server
set_policy none enabled server = record server { enabled = enabled }
set_policy (some tool) true server = record server {
  disabled_tools = BTreeMap.remove tool server.disabled_tools;
}
set_policy (some tool) false server = record server {
  disabled_tools = BTreeMap.insert tool tt server.disabled_tools;
}

-- The change of `run`, under the lock of the configuration.
unfoldable pub change_policy :
    Policy → Bool → Server → Configuration → Result (Unit {0} × Configuration)
change_policy policy enabled target config = do
  server ← ok_or (get policy.server config.servers) unknown_server
  refuse (not (same_server server target)) changed_target
  ok (
    tt,
    record config {
      servers =
          BTreeMap.insert policy.server (set_policy policy.tool enabled server) config.servers;
    },
  )
