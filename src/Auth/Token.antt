-- ===== src/Auth/Token.antt =====
-- auth/token.rs: the registration of a client, and the credential that a token's answer gives.
use ripmcp.Base.{
  ℕ, ◌+◌, Bool, true, false, not, ◌&&◌, ◌||◌, Option, none, some, List, [], ◌∷◌, any, all, is_empty,
  ltb, leb, ◌==◌, ◌^◌, if◌then◌else◌,
}
use ripmcp.Base.Error.{Result, ok, err, refuse, ok_or, ◌>>=◌, ◌>>◌}
use ripmcp.Base.Order.{eqb, list_ord, nat_ord}
use ripmcp.Base.Text.{Text, codes, len, is_control, is_ascii_alphanumeric, to_ascii_lowercase}
use ripmcp.Config.Types.{OAuthClient}
use ripmcp.Auth.Model.{invalid, unsupported, Credential, Profile, check_issuer}
use ripmcp.Auth.Scopes.{scopes}

abbrev pub client_id_url : Text
client_id_url = codes "https://a-box-of-scraps.github.io/ripmcp/oauth/client.json"

abbrev pub redirect_uri : Text
redirect_uri = codes "http://127.0.0.1:42813/oauth/callback"

-- `trim_end_matches` of a character.
unfoldable pub trim_end : ℕ → Text → Text
trim_end c [] = []
trim_end c (x ∷ text) =
    let rest = trim_end c text in if is_empty rest && x == c then [] else x ∷ rest

abbrev pub is_bearer_byte : ℕ → Bool
is_bearer_byte byte = is_ascii_alphanumeric byte || any (λ c. c == byte) (codes "-._~+/")

-- `bearer`
unfoldable pub bearer : Text → Bool
unfolding trim_end
bearer value =
    not (is_empty value)
    && leb (len value) 16384
    && all is_bearer_byte (trim_end 61 value)
    && not (is_empty (trim_end 61 value))

pub record Token : Type 0 where
  pub access_token : Text
  pub token_type : Text
  pub expires_in : Option ℕ
  pub refresh_token : Option Text
  pub scope : Option Text

abbrev pub is_zero : Option ℕ → Bool
is_zero none = false
is_zero (some n) = n == 0

abbrev pub bad_refresh : Option Text → Bool
bad_refresh none = false
bad_refresh (some token) = is_empty token || ltb 16384 (len token) || any is_control token

abbrev pub check_scope : Option Text → Result (Unit {0})
check_scope none = ok tt
check_scope (some scope) = scopes scope

-- `checked_add` of 64 bits.
abbrev pub expiry : ℕ → Option ℕ → Result (Option ℕ)
expiry issued none = ok none
expiry issued (some seconds) =
    if ltb (issued + seconds) (2 ^ 64) then ok (some (issued + seconds)) else err invalid

abbrev pub or_scope : Option Text → Option Text → Option Text
or_scope none other = other
or_scope (some scope) other = some scope

-- `credential`, at the given time.
unfoldable pub credential : Result ℕ → Token → Profile → Result Credential
unfolding bearer
credential now token profile = do
  refuse
      (is_zero token.expires_in
        || not (eqb (to_ascii_lowercase token.token_type) (codes "bearer"))
        || not (bearer token.access_token)
        || bad_refresh token.refresh_token)
      invalid
  check_scope token.scope
  issued ← now
  expires ← expiry issued token.expires_in
  ok (record {
    endpoint = [];
    resource = profile.resource;
    issuer = profile.authorization.issuer;
    client_id = [];
    token_endpoint = profile.authorization.token_endpoint;
    access_token = token.access_token;
    refresh_token = token.refresh_token;
    expires_at = expires;
    issued_at = issued;
    scope = or_scope token.scope profile.scope;
  })

-- What the registration of a client answers.
pub record Registered : Type 0 where
  pub client_id : Text
  pub client_secret : Option Text
  pub token_endpoint_auth_method : Text
  pub redirect_uris : List Text

abbrev pub is_true : Option Bool → Bool
is_true none = false
is_true (some b) = b

abbrev pub is_given : Option Text → Bool
is_given none = false
is_given (some text) = true

abbrev pub is_our_redirect : List Text → Bool
is_our_redirect (uri ∷ []) = eqb uri redirect_uri
is_our_redirect _ = false

-- The answer's client, with what it must be.
unfoldable pub registered_client : Registered → Result Text
registered_client r = do
  refuse
      (is_empty r.client_id
        || ltb 4096 (len r.client_id)
        || any is_control r.client_id
        || is_given r.client_secret
        || not (eqb r.token_endpoint_auth_method (codes "none"))
        || not (is_our_redirect r.redirect_uris))
      unsupported
  ok r.client_id

-- The client of a previous credential, if it may be used again.
abbrev pub reusable : Option Credential → Text → Option Text
reusable none issuer = none
reusable (some c) issuer =
    if eqb c.issuer issuer && not (eqb c.client_id client_id_url) then some c.client_id else none

abbrev pub register_new : (Text → Result Registered) → Option Text → Option Text → Result Text
register_new post (some client) endpoint = ok client
register_new post none endpoint = do
  url ← ok_or endpoint unsupported
  answer ← post url
  registered_client answer

-- `register`; the last argument posts the request to the endpoint, whose URL it checks, and reads
-- the answer of a success.
unfoldable pub register :
    Option OAuthClient → Profile → Option Credential → (Text → Result Registered) → Result Text
unfolding registered_client check_issuer
register (some client) profile previous post = do
  check_issuer client profile.authorization.issuer
  ok client.client_id
register none profile previous post =
    if is_true profile.authorization.client_id_metadata_document_supported
    then ok client_id_url
    else register_new post (reusable previous profile.authorization.issuer)
        profile.authorization.registration_endpoint
