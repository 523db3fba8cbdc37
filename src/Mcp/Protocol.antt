-- ===== src/Mcp/Protocol.antt =====
-- mcp/protocol.rs and the errors of mcp/mod.rs: what a message of a server is.
use ripmcp.Base.{Bool, false, not, ◌&&◌, ◌||◌, Option, none, some, is_some, if◌then◌else◌}
use ripmcp.Base.Error.{
  Error, Result, new, protocol, unsupported, ok, err, refuse, ok_or, ◌>>=◌, ◌>>◌,
}
use ripmcp.Base.Int.{ℤ, is_minus}
use ripmcp.Base.Text.{Text, codes}
use ripmcp.Json.{Value, get, index, is_object, is_string, is_str, as_str}
use ripmcp.Storage.Transaction.{Bytes}

abbrev pub protocol_error : Error
protocol_error = new protocol "invalid MCP message"

abbrev pub limit_error : Error
limit_error = new protocol "MCP resource limit exceeded; no truncated result was returned"

pub data Message : Type 0 where
  response : Option Text → Result Value → Message
  notification : Message

abbrev pub given : (Value → Bool) → Option Value → Bool
given p none = false
given p (some v) = p v

unfoldable pub read_notification : Value → Result Message
read_notification value = do
  refuse (is_some (get value (codes "id")))
      (new protocol "server-initiated requests are forbidden by MCP 2026-07-28")
  refuse
      (not (is_string (index value (codes "method")))
        || is_some (get value (codes "result"))
        || is_some (get value (codes "error"))
        || given (λ params. not (is_object params)) (get value (codes "params")))
      protocol_error
  ok notification

-- serde_json's `as_i64` and the parser of json.rs are parameters here.
module _ (as_i64 : Value → Option ℤ) (parse : Bytes → Option Value) where
  unfoldable pub rpc_error : Value → Result Error
  rpc_error value = do
    code ← ok_or (as_i64 (index value (codes "code"))) protocol_error
    refuse (not (is_string (index value (codes "message")))) protocol_error
    ok (
        if is_minus 32022 code
        then new protocol "server does not support MCP 2026-07-28; legacy fallback is disabled"
        else if is_minus 32021 code
        then new unsupported "server requires an unsupported client capability"
        else new protocol "MCP server returned a protocol error")

  -- The `id` of a response, which an error may lack.
  unfoldable pub response_id : Value → Result (Option Text)
  response_id value = elim (get value (codes "id")) [
    | some (Value.string id) ↦ ok (some id)
    | none ↦ if is_some (get value (codes "error")) then ok none else err protocol_error
    | some _ ↦ err protocol_error
  ]

  -- The match on the result and the error of a response.
  unfoldable pub read_response : Option Text → Option Value → Option Value → Result Message
  unfolding rpc_error
  read_response id (some result) none =
      if is_some id && is_object result then ok (response id (ok result)) else err protocol_error
  read_response id none (some error) = do e ← rpc_error error; ok (response id (err e))
  read_response id _ _ = err protocol_error

  unfoldable pub decode : Bytes → Result Message
  unfolding response_id read_response read_notification
  decode bytes = do
    value ← ok_or (parse bytes) protocol_error
    refuse (not (is_str (index value (codes "jsonrpc")) (codes "2.0")) || not (is_object value))
        protocol_error
    if is_some (get value (codes "method")) then read_notification value else do
      id ← response_id value
      read_response id (get value (codes "result")) (get value (codes "error"))

unfoldable pub complete_type : Option Text → Result (Unit {0})
complete_type none = err protocol_error
complete_type (some kind) =
    if is_str (Value.string kind) (codes "complete")
    then ok tt
    else if is_str (Value.string kind) (codes "input_required")
    then err (
        new unsupported
          "tool requires client input; use --interactive for URL interaction; invocation was not replayed")
    else err (new unsupported "MCP result type is not supported")

-- `complete`
unfoldable pub complete : Value → Result (Unit {0})
unfolding complete_type
complete value = do
  refuse (given (λ meta. not (is_object meta)) (get value (codes "_meta"))) protocol_error
  complete_type (as_str (index value (codes "resultType")))
