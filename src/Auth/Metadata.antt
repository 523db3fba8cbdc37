-- ===== src/Auth/Metadata.antt =====
-- auth/metadata.rs: what the documents of a resource and of its authorization server must say.
use ripmcp.Base.{
  Bool, false, not, ◌||◌, Option, none, some, List, [], ◌∷◌, any, is_empty, length, ltb,
}
use ripmcp.Base.Error.{Error, Result, ok, err, refuse, ◌>>=◌, ◌>>◌}
use ripmcp.Base.Order.{eqb, list_ord, nat_ord}
use ripmcp.Base.Text.{Text, codes}
use ripmcp.Config.Types.{OAuthClient, ClientAuthMethod}
use ripmcp.Auth.Model.{invalid, unsupported, Authorization, Profile, check_issuer}
use ripmcp.Auth.Scopes.{scopes, join_space}

pub record Resource : Type 0 where
  pub resource : Text
  pub authorization_servers : List Text
  pub scopes_supported : Option (List Text)
  pub bearer_methods_supported : Option (List Text)

abbrev pub has : Text → List Text → Bool
has value = any (λ other. eqb other value)

abbrev pub lacks : Text → Option (List Text) → Bool
lacks value none = false
lacks value (some values) = not (has value values)

abbrev pub offers : Text → Option (List Text) → Bool
offers value none = false
offers value (some values) = has value values

abbrev pub method_name : ClientAuthMethod → Text
method_name ClientAuthMethod.none = codes "none"
method_name ClientAuthMethod.client_secret_post = codes "client_secret_post"
method_name ClientAuthMethod.client_secret_basic = codes "client_secret_basic"

abbrev pub method_of : Option OAuthClient → Text
method_of none = codes "none"
method_of (some client) = method_name client.token_endpoint_auth_method

-- `validate_authorization`; `url` is the test of a URL.
unfoldable pub validate_authorization :
    (Text → Result (Unit {0})) → Option OAuthClient → Authorization → Result (Unit {0})
validate_authorization url client metadata = do
  url metadata.authorization_endpoint
  url metadata.token_endpoint
  refuse
      (not (has (codes "code") metadata.response_types_supported)
        || not (offers (codes "S256") metadata.code_challenge_methods_supported)
        || lacks (codes "authorization_code") metadata.grant_types_supported
        || lacks (method_of client) metadata.token_endpoint_auth_methods_supported)
      unsupported

-- `authorization_metadata`, from the document on.
unfoldable pub authorization_metadata :
    (Text → Result (Unit {0}))
    → Option OAuthClient
    → Text
    → Result Authorization
    → Result Authorization
unfolding validate_authorization
authorization_metadata url client issuer document = do
  metadata ← document
  refuse (not (eqb metadata.issuer issuer)) invalid
  validate_authorization url client metadata
  ok metadata

-- What a candidate's address answers.
pub data Answer (D : Type 0) : Type 0 where
  unsent : Error → Answer D
  -- one of the statuses of `absent`
  absent : Answer D
  -- another status that is no success
  refused : Answer D
  answered : Result D → Answer D

-- `first_document`
unfoldable pub first_document : {D : Type 0} → List (Answer D) → Result D
first_document [] = err unsupported
first_document (unsent e ∷ answers) = err e
first_document (absent ∷ answers) = first_document answers
first_document (refused ∷ answers) = err invalid
first_document (answered d ∷ answers) = d

abbrev pub nonempty_scopes : Option (List Text) → Option Text
nonempty_scopes none = none
nonempty_scopes (some []) = none
nonempty_scopes (some (s ∷ ss)) = some (join_space (s ∷ ss))

abbrev pub client_scopes : Option OAuthClient → Option (List Text)
client_scopes none = none
client_scopes (some client) = some client.scopes

abbrev pub or_else : Option Text → Option Text → Option Text
or_else none other = other
or_else (some text) other = some text

abbrev pub check_client : Option OAuthClient → Text → Result (Unit {0})
check_client none issuer = ok tt
check_client (some client) issuer = check_issuer client issuer

abbrev pub check_scope : Option Text → Result (Unit {0})
check_scope none = ok tt
check_scope (some scope) = scopes scope

abbrev pub first_server : List Text → Result Text
first_server [] = err invalid
first_server (issuer ∷ issuers) = ok issuer

-- `discover`, by the scope of the challenge, the resource's document, and what
-- `authorization_metadata` gives for an issuer; `expected` is the canonical endpoint.
unfoldable pub discover :
    Option OAuthClient
    → Text
    → Result (Option Text)
    → Result Resource
    → (Text → Result Authorization)
    → Result Profile
discover client expected challenge document metadata = do
  asked ← challenge
  resource ← document
  refuse
      (not (eqb resource.resource expected)
        || is_empty resource.authorization_servers
        || ltb 16 (length resource.authorization_servers)
        || lacks (codes "header") resource.bearer_methods_supported)
      invalid
  issuer ← first_server resource.authorization_servers
  check_client client issuer
  authorization ← metadata issuer
  let scope =
      or_else asked (
        or_else (nonempty_scopes (client_scopes client))
          (nonempty_scopes resource.scopes_supported))
  check_scope scope
  ok (record { resource = expected; authorization = authorization; scope = scope })
