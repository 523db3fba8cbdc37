-- ===== src/Mcp/Calls.antt =====
-- The calls of mcp/tools.rs, with the requests for input of mcp/interaction.rs. What happens in a
-- call is a list of events, the last first; the rechecks, the answers of the server, the looks at
-- the
-- deadline and the presentations come from an environment, which may go by what has happened.
pub mod Traces
use ripmcp.Base.{
  ℕ, zero, suc, Bool, true, false, not, ◌||◌, Option, none, some, List, [], ◌∷◌, if◌then◌else◌,
}
use ripmcp.Base.Error.{Result, new, usage, err, refuse}
use ripmcp.Base.Text.{Text, codes}
use ripmcp.Config.Url.{UrlCrate}
use ripmcp.Json.{Value, Fields, index, is_object, is_str}
use ripmcp.Mcp.Prompts.{Prompt, requested_prompts, next_params}
use ripmcp.Mcp.Protocol.{limit_error}
use ripmcp.Mcp.Tools.{Tool, Discovery, name, select_tool, parse_result}
use ripmcp.Storage.Exec.{Exec, lift, pure, modify, get_state, ◌>>=◌, ◌>>◌}

pub data Event : Type 0 where
  rechecked : Event
  -- "tools/call" with these params
  requested : Fields → Event
  presented : Prompt → Event

abbrev pub Trace : Type 0
Trace = List Event

pub record Environment : Type 0 where
  pub interactive : Bool
  pub recheck : Trace → Result (Unit {0})
  pub request : Trace → Fields → Result Value
  pub remaining : Trace → Result (Unit {0})
  -- `Operation::present`
  pub present : Trace → Prompt → Result (Unit {0})

abbrev pub note_recheck : Result (Unit {0}) → Exec Trace (Unit {0})
note_recheck (Result.ok _) trace = (Result.ok tt, rechecked ∷ trace)
note_recheck (err e) trace = (err e, trace)

module _ (U : UrlCrate) (E : Environment) where
  unfoldable pub recheck : Exec Trace (Unit {0})
  recheck trace = note_recheck (E.recheck trace) trace

  -- The request is sent, whatever comes of it.
  unfoldable pub request : Fields → Exec Trace Value
  request params trace = (E.request trace params, requested params ∷ trace)

  unfoldable pub present : Prompt → Exec Trace (Unit {0})
  present p trace = (E.present trace p, presented p ∷ trace)

  abbrev pub remaining : Exec Trace (Unit {0})
  remaining trace = (E.remaining trace, trace)

  unfoldable pub present_all : List (Text × Prompt) → Exec Trace (Unit {0})
  present_all [] = pure tt
  present_all ((id, p) ∷ ps) = do present p; present_all ps

  unfoldable pub continue_request : Value → Fields → Exec Trace Fields
  continue_request result params = do
    ps ← lift (requested_prompts U E.interactive result)
    present_all ps
    pure (next_params result ps params)

  abbrev pub asks_for_input : Value → Bool
  asks_for_input result = is_str (index result (codes "resultType")) (codes "input_required")

  -- The rounds that are left, and the params.
  unfoldable pub call_rounds : ℕ → Fields → Exec Trace Value
  call_rounds zero params = lift (err limit_error)
  call_rounds (suc left) params = do
    recheck
    result ← request params
    remaining
    if not (asks_for_input result) || not E.interactive
        then (do let parsed = parse_result result; remaining; lift parsed)
        else (do recheck; params' ← continue_request result params; call_rounds left params')

  abbrev pub call_params : Tool → Value → Fields
  call_params tool arguments =
      Fields.field (codes "arguments") arguments
        (Fields.field (codes "name") (Value.string (name tool)) Fields.end)

  -- `call_tool_checked`; the headers of the arguments are headers.rs.
  unfoldable pub call_tool_checked : Result (Unit {0}) → Tool → Value → Exec Trace Value
  call_tool_checked headers tool arguments = do
    lift (refuse (not (is_object arguments)) (new usage "tool arguments must be a JSON object"))
    lift headers
    call_rounds 16 (call_params tool arguments)
