-- ===== src/Mcp/Prompts.antt =====
-- mcp/interaction.rs: the prompts that a server asks for, and the params of the call that goes on.
pub mod Valid
use ripmcp.Base.{
  ℕ, Bool, true, false, not, ◌&&◌, ◌||◌, Option, none, some, List, [], ◌∷◌, any, all, ltb, leb,
  is_none, is_some, is_empty, if◌then◌else◌,
}
use ripmcp.Base.Error.{Error, Result, new, unsupported, ok, err, refuse, ok_or, ◌>>=◌, ◌>>◌}
use ripmcp.Base.Order.{eqb, list_ord, nat_ord}
use ripmcp.Base.Text.{Text, codes, len, is_control}
use ripmcp.Config.Url.{UrlCrate}
use ripmcp.Json.{
  Value, Fields, get, index, insert, remove, count_fields, is_object, is_string, is_str, as_str,
}
use ripmcp.Mcp.Protocol.{protocol_error, given}

pub record Prompt : Type 0 where
  pub url : Text
  pub message : Text

abbrev pub prompt_of : Text → Text → Prompt
prompt_of url message = record { url = url; message = message }

abbrev pub unsupported_input : Error
unsupported_input =
    new unsupported
      "tool requires unsupported client input; only URL elicitation with --interactive is supported; invocation was not replayed"

abbrev pub is_loopback : Option Text → Bool
is_loopback none = false
is_loopback (some host) =
    eqb host (codes "127.0.0.1") || eqb host (codes "[::1]") || eqb host (codes "localhost")

-- An object with entries, 16 at most.
unfoldable pub input_requests : Value → Result Fields
input_requests (Value.object inputs) =
    if ltb 0 (count_fields inputs) && leb (count_fields inputs) 16
    then ok inputs
    else err unsupported_input
input_requests _ = err unsupported_input

module _ (U : UrlCrate) where
  -- The tests of `Prompt::validate` on the URL that was parsed.
  unfoldable pub bad_prompt : Prompt → U.Url → Bool
  bad_prompt p url =
      not (all (λ c. ltb c 128) p.url)
      || ltb 8192 (len p.url)
      || ltb 8192 (len p.message)
      || any is_control p.url
      || is_none (U.host_str url)
      || not (is_empty (U.username url))
      || is_some (U.password url)
      || not (
          eqb (U.scheme url) (codes "https")
          || (eqb (U.scheme url) (codes "http") && is_loopback (U.host_str url)))

  -- `Prompt::validate`
  unfoldable pub validate_prompt : Prompt → Result (Unit {0})
  validate_prompt p = do
    url ← ok_or (U.parse p.url) protocol_error
    refuse (bad_prompt p url) protocol_error

  -- One input of the loop that reads the prompts.
  unfoldable pub read_prompt : Value → Result Prompt
  read_prompt input = do
    refuse
        (not (is_str (index input (codes "method")) (codes "elicitation/create"))
          || not (is_str (index (index input (codes "params")) (codes "mode")) (codes "url")))
        unsupported_input
    url ← ok_or (as_str (index (index input (codes "params")) (codes "url"))) protocol_error
    message ← ok_or (as_str (index (index input (codes "params")) (codes "message"))) protocol_error
    validate_prompt (prompt_of url message)
    ok (prompt_of url message)

  unfoldable pub read_prompts : Fields → Result (List (Text × Prompt))
  read_prompts Fields.end = ok []
  read_prompts (Fields.field id input inputs) = do
    p ← read_prompt input
    ps ← read_prompts inputs
    ok ((id, p) ∷ ps)

  -- What `continue_request` finds before it presents anything.
  unfoldable pub requested_prompts : Bool → Value → Result (List (Text × Prompt))
  requested_prompts interactive result = do
    refuse (not interactive) unsupported_input
    refuse
        (given (λ meta. not (is_object meta)) (get result (codes "_meta"))
          || given (λ state. not (is_string state)) (get result (codes "requestState")))
        protocol_error
    inputs ← input_requests (index result (codes "inputRequests"))
    read_prompts inputs

abbrev pub accepted : Value
accepted = Value.object (Fields.field (codes "action") (Value.string (codes "accept")) Fields.end)

unfoldable pub responses : List (Text × Prompt) → Fields → Fields
responses [] fs = fs
responses ((id, p) ∷ ps) fs = responses ps (insert id accepted fs)

abbrev pub set_state : Option Value → Fields → Fields
set_state none params = params
set_state (some state) params = insert (codes "requestState") state params

-- The params of the call that goes on, which are an object.
unfoldable pub next_params : Value → List (Text × Prompt) → Fields → Fields
unfolding responses
next_params result ps params = set_state (get result (codes "requestState")) (
    remove (codes "requestState")
      (insert (codes "inputResponses") (Value.object (responses ps Fields.end)) params))
