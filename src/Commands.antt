-- ===== src/Commands.antt =====
-- tools/mod.rs: which server has a tool, from the answers of all servers that are enabled. A
-- request
-- to the supervisor and the second load of the configuration are results.
pub mod Unique
pub mod Input
pub mod Policy
use ripmcp.Base.{
  Bool, true, false, not, ◌&&◌, Option, none, some, List, [], ◌∷◌, ◌++◌, map, is_empty,
  if◌then◌else◌,
}
use ripmcp.Base.Error.{
  ErrorKind, Error, Result, new, field, kind, io, usage, configuration, connection, protocol,
  authentication, tool_result, partial_failure, timeout, unsupported, cancelled, ok, err, refuse,
  ◌>>=◌, ◌>>◌,
}
use ripmcp.Base.FilePath.{FilePath, component_ord}
use ripmcp.Base.Order.{eqb, list_ord, nat_ord}
use ripmcp.Base.Text.{Text, codes}
use ripmcp.Config.Effective.{Effective, Identity, ServerReport, Source, reports, identity}
use ripmcp.Json.{Value, Items, Fields, get, index, insert, is_str, as_str, as_array}

-- `error.kind as u8`, in decimal.
abbrev pub code : ErrorKind → Text
code io = codes "1"
code usage = codes "2"
code configuration = codes "3"
code connection = codes "4"
code protocol = codes "5"
code authentication = codes "6"
code tool_result = codes "7"
code partial_failure = codes "8"
code timeout = codes "9"
code unsupported = codes "10"
code cancelled = codes "130"

abbrev pub is_cancelled : ErrorKind → Bool
is_cancelled cancelled = true
is_cancelled _ = false

unfoldable pub append : Items → Items → Items
append Items.nil ys = ys
append (Items.cons x xs) ys = Items.cons x (append xs ys)

abbrev pub one : Value → Items
one v = Items.cons v Items.nil

-- `value[key].as_array().into_iter().flatten()`
unfoldable pub array_of : Value → Text → Items
array_of value key = elim (as_array (index value key)) [ none ↦ Items.nil | some xs ↦ xs ]

abbrev pub is_nil : Items → Bool
is_nil Items.nil = true
is_nil _ = false

-- `complete`
unfoldable pub complete : Value → Result (Unit {0})
unfolding array_of
complete value =
    refuse (not (is_nil (array_of value (codes "errors"))))
      (new partial_failure "incomplete tool discovery; uniqueness cannot be established")

abbrev pub same_source : Source → Source → Bool
same_source (Source.user a) (Source.user b) = eqb a b
same_source (Source.project a) (Source.project b) = eqb a b
same_source _ _ = false

abbrev pub same_identities : List Identity → List Identity → Bool
same_identities [] [] = true
same_identities (a ∷ rest) (b ∷ others) =
    same_source a.source b.source
    && eqb a.name b.name
    && eqb a.configuration_digest b.configuration_digest
    && same_identities rest others
same_identities _ _ = false

abbrev pub collect : Effective → List ServerReport → Result (List Identity)
collect effective [] = ok []
collect effective (server ∷ servers) = do
  i ← identity effective server.name
  is ← collect effective servers
  ok (i ∷ is)

unfoldable pub identities : Effective → Result (List Identity)
identities effective = collect effective (reports effective)

abbrev pub enabled : List ServerReport → List ServerReport
enabled [] = []
enabled (server ∷ servers) = if server.enabled then server ∷ enabled servers else enabled servers

-- How `Error::field` quotes a path is serde_json's.
abbrev pub message : (Text → Text) → Error → Text
message quote (new k m) = codes m
message quote (field path) = codes "invalid configuration field " ++ quote (codes path)

abbrev pub failure : (Text → Text) → Text → Error → Value
failure quote server e = Value.object (
    Fields.field (codes "code") (Value.number (code (kind e))) (
      Fields.field (codes "message") (Value.string (message quote e))
        (Fields.field (codes "server") (Value.string server) Fields.end)))

abbrev pub changed : Value
changed = Value.object (
    Fields.field (codes "code") (Value.number (codes "3")) (
      Fields.field (codes "message") (Value.string (codes "configuration changed during discovery"))
        Fields.end))

abbrev pub answer : Items → Items → Value
answer tools errors = Value.object (
    Fields.field (codes "errors") (Value.array errors) (
      Fields.field (codes "schema_version") (Value.number (codes "1"))
        (Fields.field (codes "tools") (Value.array tools) Fields.end)))

-- The servers of the entries of that name.
unfoldable pub candidates : Text → Items → List Text
candidates tool Items.nil = []
candidates tool (Items.cons entry entries) =
    let rest = candidates tool entries in
    if is_str (index entry (codes "name")) tool
    then elim (as_str (index entry (codes "server"))) [ none ↦ rest | some s ↦ s ∷ rest ]
    else rest

abbrev pub only_one : List Text → Result Text
only_one [] = err (new usage "no enabled tool matches the requested name")
only_one (server ∷ []) = ok server
only_one (_ ∷ _ ∷ _) = err (new usage "ambiguous tool; retry with call <server> <tool>")

module _ (quote : Text → Text) (request : Text → Result Value) where
  -- The loop of `discover` over the servers that are enabled.
  unfoldable pub ask_servers : List ServerReport → Items → Items → Result (Items × Items)
  ask_servers [] tools errors = ok (tools, errors)
  ask_servers (server ∷ servers) tools errors = elim (request server.name) [
    | ok value ↦
        ask_servers servers (append tools (array_of value (codes "tools")))
          (append errors (array_of value (codes "errors")))
    | err e ↦
        let more = ask_servers servers tools (append errors (one (failure quote server.name e))) in
        if is_cancelled (kind e) then err e else more
  ]

  unfoldable pub discover : Effective → Result Effective → Result Value
  discover effective loaded = do
    (tools, errors) ← ask_servers (enabled (reports effective)) Items.nil Items.nil
    current ← loaded
    before ← identities effective
    now ← identities current
    ok (answer tools (if same_identities before now then errors else append errors (one changed)))

  -- What it prints where it fails is left out.
  unfoldable pub resolve : Effective → Result Effective → Text → Result Text
  resolve effective loaded tool = do
    value ← discover effective loaded
    complete value
    only_one (candidates tool (array_of value (codes "tools")))
