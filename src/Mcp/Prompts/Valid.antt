-- ===== src/Mcp/Prompts/Valid.antt =====
-- mcp/interaction.rs: the prompts that are presented are valid.
use mathlib.Core.Path.{subst}
use ripmcp.Base.{Bool, ◌≡◌, List, ◌∷◌, arith, not, All}
use ripmcp.Base.Error.{ok, refuse, >>=-eq-ok, ok-injective, ◌>>=◌}
use ripmcp.Base.Text.{Text, codes}
use ripmcp.Config.Url.{UrlCrate}
use ripmcp.Json.{Value, Fields, index}
use ripmcp.Mcp.Protocol.{protocol_error}
use ripmcp.Mcp.Prompts.{
  Prompt, validate_prompt, read_prompt, read_prompts, requested_prompts, input_requests,
  unsupported_input,
}

abbrev pub IsValidPrompt : UrlCrate → Text × Prompt → Type 0
IsValidPrompt U (id, p) = validate_prompt U p ≡ ok tt

read_prompt-IsValid :
    (U : UrlCrate) (input : Value) {p : Prompt}
    → read_prompt U input ≡ ok p
    → validate_prompt U p ≡ ok tt
unfolding read_prompt
read_prompt-IsValid U input h = ground arith

read_prompts-All :
    (U : UrlCrate) (inputs : Fields) {ps : List (Text × Prompt)}
    → read_prompts U inputs ≡ ok ps
    → All (IsValidPrompt U) ps
unfolding read_prompts
read_prompts-All U Fields.end h = subst (All (IsValidPrompt U)) (ok-injective h) tt
read_prompts-All U (Fields.field id input inputs) h =
    let (p, e, k1) = >>=-eq-ok (read_prompt U input) _ h in
    let (ps, es, k2) = >>=-eq-ok (read_prompts U inputs) (λ qs. ok ((id, p) ∷ qs)) k1 in
    subst (All (IsValidPrompt U)) (ok-injective k2)
      (read_prompt-IsValid U input e, read_prompts-All U inputs es)

pub requested_prompts-All :
    (U : UrlCrate) (interactive : Bool) (result : Value) {ps : List (Text × Prompt)}
    → requested_prompts U interactive result ≡ ok ps
    → All (IsValidPrompt U) ps
unfolding requested_prompts
requested_prompts-All U interactive result h =
    let (_, _, k1) = >>=-eq-ok (refuse (not interactive) unsupported_input) _ h in
    let (_, _, k2) =
      >>=-eq-ok (refuse _ protocol_error)
        (λ _. input_requests (index result (codes "inputRequests")) >>= read_prompts U) k1 in
    let (inputs, _, k3) = >>=-eq-ok (input_requests (index result (codes "inputRequests"))) _ k2 in
    read_prompts-All U inputs k3
