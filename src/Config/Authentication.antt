-- ===== src/Config/Authentication.antt =====
-- config/authentication.rs: the authentication of a remote server.
use ripmcp.Base.{
  ℕ, ◌+◌, Bool, true, false, not, ◌&&◌, ◌||◌, Option, none, some, List, [], ◌∷◌, ◌++◌, any, all,
  is_empty, is_some, is_none, length, ltb, leb, ◌==◌,
}
use ripmcp.Base.BTreeMap.{keys, values}
use ripmcp.Base.Error.{Result, field, ok, refuse, ◌>>=◌, ◌>>◌}
use ripmcp.Base.Order.{eqb, list_ord, nat_ord}
use ripmcp.Base.Text.{Text, codes, len, is_control, to_ascii_lowercase}
use ripmcp.Config.Names.{validate_reference}
use ripmcp.Config.Types.{
  Authentication, ClientAuthMethod, SecretReference, OAuthClient, Definition, local, remote,
}
use ripmcp.Config.Url.{UrlCrate, endpoint}

abbrev pub is_bearer : Authentication → Bool
is_bearer Authentication.bearer = true
is_bearer _ = false

abbrev pub is_oauth : Authentication → Bool
is_oauth Authentication.oauth = true
is_oauth _ = false

abbrev pub is_public : ClientAuthMethod → Bool
is_public ClientAuthMethod.none = true
is_public _ = false

-- `!=` on `bool`
abbrev pub differ : Bool → Bool → Bool
differ true b = not b
differ false b = b

abbrev pub scope_byte : ℕ → Bool
scope_byte byte =
    byte == 0x21 || (leb 0x23 byte && leb byte 0x5b) || (leb 0x5d byte && leb byte 0x7e)

abbrev pub total_len : List Text → ℕ
total_len [] = 0
total_len (s ∷ ss) = len s + total_len ss

abbrev pub is_authorization : Text → Bool
is_authorization name = eqb (to_ascii_lowercase name) (codes "authorization")

abbrev pub optional {ℓ} : {A : Type ℓ} → (A → Result (Unit {0})) → Option A → Result (Unit {0})
optional check none = ok tt
optional check (some a) = check a

module _ (U : UrlCrate) where
  -- `OAuthClient::validate`
  unfoldable pub validate_client : OAuthClient → Result (Unit {0})
  validate_client c = do
    issuer ← endpoint U c.issuer
    refuse
        (not (eqb (U.scheme issuer) (codes "https"))
          || is_some (U.query issuer)
          || ltb 8192 (len c.issuer)
          || ltb 128 (length c.scopes)
          || ltb 8192 (total_len c.scopes)
          || is_empty c.client_id
          || ltb 4096 (len c.client_id)
          || any is_control c.client_id
          || differ (is_public c.token_endpoint_auth_method) (is_none c.client_secret)
          || any (λ scope. is_empty scope || not (all scope_byte scope)) c.scopes)
        (field "servers.definition.oauth_client")
    optional validate_reference c.client_secret

  -- `authentication::validate`
  unfoldable pub validate : Definition → Result (Unit {0})
  validate (local l) = ok tt
  validate (remote r) = do
    refuse
        (differ (is_bearer r.authentication) (is_some r.bearer)
          || (is_some r.oauth_client && not (is_oauth r.authentication))
          || (is_bearer r.authentication && any is_authorization (keys r.headers)))
        (field "servers.definition.authentication")
    optional validate_reference r.bearer
    optional validate_client r.oauth_client

abbrev pub to_list {ℓ} : {A : Type ℓ} → Option A → List A
to_list none = []
to_list (some a) = a ∷ []

abbrev pub client_secrets : Option OAuthClient → List SecretReference
client_secrets none = []
client_secrets (some c) = to_list c.client_secret

-- `Definition::references`
unfoldable pub references : Definition → List SecretReference
references (local l) = values l.env
references (remote r) = values r.headers ++ (to_list r.bearer ++ client_secrets r.oauth_client)
