-- ===== src/Mcp/Tools.antt =====
-- mcp/tools.rs: the tools of a server, page by page, and their results.
pub mod Names
pub mod Inventory
use ripmcp.Base.{
  ℕ, zero, suc, ◌+◌, ◌^◌, Bool, true, false, not, ◌&&◌, ◌||◌, Option, none, some, List, [], ◌∷◌,
  ◌++◌, length, any, is_empty, ltb, leb, if◌then◌else◌,
}
use ripmcp.Base.Error.{
  Result, new, usage, ok, err, refuse, ok_or, partial_failure, is_ok, ◌>>=◌, ◌>>◌,
}
use ripmcp.Base.Order.{eqb, list_ord, nat_ord}
use ripmcp.Base.Text.{Text, codes}
use ripmcp.Json.{
  Value, Items, get, index, is_object, is_string, is_boolean, is_str, as_str, as_array,
}
use ripmcp.Mcp.Protocol.{protocol_error, limit_error, given, complete}

pub record Limits : Type 0 where
  pub frame_bytes : ℕ
  pub discovery_bytes : ℕ
  pub tools : ℕ
  pub pages : ℕ
  pub in_flight : ℕ

-- A `Tool` is a value that `parse` took.
abbrev pub Tool : Type 0
Tool = Value

-- `Tool::name`; `none` is the panic of `unwrap`.
unfoldable pub name? : Tool → Option Text
name? tool = as_str (index tool (codes "name"))

abbrev pub text_or_empty : Option Text → Text
text_or_empty none = []
text_or_empty (some s) = s

unfoldable pub name : Tool → Text
unfolding name?
name tool = text_or_empty (name? tool)

abbrev pub input_schema : Tool → Value
input_schema tool = index tool (codes "inputSchema")

abbrev pub missing_or_empty : Option Text → Bool
missing_or_empty none = true
missing_or_empty (some s) = is_empty s

-- `Tool::parse`
unfoldable pub parse : Value → Result Tool
parse value = do
  refuse
      (missing_or_empty (as_str (index value (codes "name")))
        || not (is_object (index value (codes "inputSchema")))
        || not (is_str (index (index value (codes "inputSchema")) (codes "type")) (codes "object"))
        || given (λ schema. not (is_object schema)) (get value (codes "outputSchema"))
        || given (λ text. not (is_string text)) (get value (codes "description"))
        || given (λ title. not (is_string title)) (get value (codes "title"))
        || given (λ meta. not (is_object meta)) (get value (codes "_meta")))
      protocol_error
  ok value

pub record Discovery : Type 0 where
  pub tools : List Tool
  pub rejected_tools : List Text

unfoldable pub require_complete : Discovery → Result (Unit {0})
require_complete d = refuse (not (is_empty d.rejected_tools)) (
    new partial_failure
      "tool discovery excluded invalid HTTP header annotations; uniqueness cannot be established")

-- A `HashSet` of texts.
abbrev pub contains : List Text → Text → Bool
contains names n = any (λ m. eqb n m) names

-- What the loops of discovery change.
pub record Walk : Type 0 where
  pub tools : List Tool
  pub rejected_tools : List Text
  pub names : List Text

module _ (limits : Limits) (is_http : Bool) (annotations : Value → Result (Unit {0})) where
  -- One tool of `append_tools`.
  unfoldable pub append_tool : Value → Walk → Result Walk
  append_tool value w = do
    refuse (leb limits.tools (length w.names)) limit_error
    tool ← parse value
    refuse (contains w.names (name tool)) protocol_error
    ok (
        if is_http && not (is_ok (annotations (input_schema tool)))
        then record w {
          rejected_tools = w.rejected_tools ++ (name tool ∷ []);
          names = name tool ∷ w.names;
        }
        else record w { tools = w.tools ++ (tool ∷ []); names = name tool ∷ w.names })

  unfoldable pub append_items : Items → Walk → Result Walk
  append_items Items.nil w = ok w
  append_items (Items.cons value values) w = do w' ← append_tool value w; append_items values w'

  unfoldable pub append_tools : Value → Walk → Result Walk
  append_tools page w = do
    tools ← ok_or (as_array (index page (codes "tools"))) protocol_error
    append_items tools w

  -- The answer to the request of a round, which has the cursor of the page before, if any; the
  -- length of a value's encoding; the look at the deadline after a round.
  module _ (request : ℕ → Option Text → Result Value) (encoded_len : Value → ℕ)
      (remaining : ℕ → Result (Unit {0})) where
    -- `protocol::encode(&page, limit)?.len()`
    unfoldable pub encode_len : Value → Result ℕ
    encode_len page = do
      refuse (ltb limits.discovery_bytes (encoded_len page)) limit_error
      ok (encoded_len page)

    -- `nextCursor`: no more pages, a cursor that is new, or an error.
    unfoldable pub next_cursor : Value → List Text → Result (Option Text)
    next_cursor page cursors = elim (get page (codes "nextCursor")) [
      | none ↦ ok none
      | some (Value.string cursor) ↦
          if contains cursors cursor then err protocol_error else ok (some cursor)
      | some _ ↦ err protocol_error
    ]

    -- The rounds that are left, the number of the round, the cursor to send, the cursors that were
    -- sent, the bytes so far.
    unfoldable pub discover_rounds : ℕ → ℕ → Option Text → List Text → ℕ → Walk → Result Walk
    discover_rounds zero round cursor cursors bytes w = err limit_error
    discover_rounds (suc left) round cursor cursors bytes w = do
      page ← request round cursor
      complete page
      size ← encode_len page
      refuse (leb (2 ^ 64) (bytes + size) || ltb limits.discovery_bytes (bytes + size)) limit_error
      w' ← append_tools page w
      remaining round
      next ← next_cursor page cursors
      elim next [
        | none ↦ ok w'
        | some c ↦ discover_rounds left (round + 1) (some c) (c ∷ cursors) (bytes + size) w'
      ]

    unfoldable pub discover_tools : Result Discovery
    discover_tools = do
      w ←
          discover_rounds limits.pages 0 none [] 0
            (record { tools = []; rejected_tools = []; names = [] })
      ok (record { tools = w.tools; rejected_tools = w.rejected_tools })

unfoldable pub find : Text → List Tool → Option Tool
find n [] = none
find n (t ∷ ts) = if eqb (name t) n then some t else find n ts

-- `Client::tool`, on what was discovered.
unfoldable pub select_tool : Text → Discovery → Result Tool
unfolding find
select_tool n d =
    ok_or (find n d.tools) (new usage "tool was not found or its definition is invalid")

abbrev pub valid_content_type : Option Text → Value → Bool
valid_content_type none block = false
valid_content_type (some kind) block =
    if eqb kind (codes "text")
    then is_string (index block (codes "text"))
    else if eqb kind (codes "image") || eqb kind (codes "audio")
    then is_string (index block (codes "data")) && is_string (index block (codes "mimeType"))
    else if eqb kind (codes "resource_link")
    then is_string (index block (codes "uri")) && is_string (index block (codes "name"))
    else if eqb kind (codes "resource")
    then is_string (index (index block (codes "resource")) (codes "uri"))
      && (is_string (index (index block (codes "resource")) (codes "text"))
          || is_string (index (index block (codes "resource")) (codes "blob")))
    else false

unfoldable pub validate_content : Value → Result (Unit {0})
validate_content block =
    refuse (not (valid_content_type (as_str (index block (codes "type"))) block)) protocol_error

unfoldable pub validate_blocks : Items → Result (Unit {0})
validate_blocks Items.nil = ok tt
validate_blocks (Items.cons block blocks) = do validate_content block; validate_blocks blocks

-- `ToolResult::parse`
unfoldable pub parse_result : Value → Result Value
unfolding validate_blocks validate_content
parse_result value = do
  complete value
  content ← ok_or (as_array (index value (codes "content"))) protocol_error
  refuse (given (λ flag. not (is_boolean flag)) (get value (codes "isError"))) protocol_error
  validate_blocks content
  ok value
