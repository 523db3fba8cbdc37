-- ===== src/Config/Schema/Laws.antt =====
-- config/schema.rs and config/authentication.rs: what holds of a validated configuration.
use ripmcp.Base.{true, ◌≡◌, ◌↔◌, Option, none, some, List, [], ◌∷◌, ◌++◌, All, All-append, arith}
use ripmcp.Base.BTreeMap.{values}
use ripmcp.Base.Error.{ok, refuse, >>=-eq-ok, ◌>>◌}
use ripmcp.Config.Authentication
use ripmcp.Config.Authentication.{
  references, to_list, client_secrets, validate_client, is_bearer, is_authorization, optional,
}
use ripmcp.Config.Names.{is_valid_reference, validate_reference}
use ripmcp.Config.Schema.{check_references, validate_references, validate_definition}
use ripmcp.Config.Types.{SecretReference, OAuthClient, Definition, local, remote, Remote}
use ripmcp.Config.Url.{UrlCrate, endpoint}

abbrev pub IsValidReference : SecretReference → Type 0
IsValidReference r = is_valid_reference r ≡ true

validate_reference_iff : (r : SecretReference) → (validate_reference r ≡ ok tt) ↔ IsValidReference r
unfolding validate_reference is_valid_reference
validate_reference_iff (SecretReference.environment name) = ground arith
validate_reference_iff (SecretReference.keyring id) = ground arith
validate_reference_iff (SecretReference.stored id) = ground arith

check_references-All :
    (rs : List SecretReference) → check_references rs ≡ ok tt → All IsValidReference rs
unfolding check_references
check_references-All [] h = tt
check_references-All (r ∷ rs) h = (ground arith, check_references-All rs (ground arith))

optional-All :
    (o : Option SecretReference)
    → optional validate_reference o ≡ ok tt
    → All IsValidReference (to_list o)
optional-All none h = tt
optional-All (some r) h = ((validate_reference_iff r).0 h, tt)

client_secret-All :
    (U : UrlCrate) (c : OAuthClient)
    → validate_client U c ≡ ok tt
    → All IsValidReference (to_list c.client_secret)
unfolding validate_client
client_secret-All U c h =
    let (issuer, _, k1) = >>=-eq-ok (endpoint U c.issuer) _ h in
    let (_, _, k2) = >>=-eq-ok (refuse _ _) (λ _. optional validate_reference c.client_secret) k1 in
    optional-All c.client_secret k2

client_secrets-All :
    (U : UrlCrate) (o : Option OAuthClient)
    → optional (validate_client U) o ≡ ok tt
    → All IsValidReference (client_secrets o)
client_secrets-All U none h = tt
client_secrets-All U (some c) h = client_secret-All U c h

remote_extra-All :
    (U : UrlCrate) (r : Remote)
    → Authentication.validate U (remote r) ≡ ok tt
    → All IsValidReference (to_list r.bearer ++ client_secrets r.oauth_client)
unfolding Authentication.validate
remote_extra-All U r h =
    let (_, _, k1) =
      >>=-eq-ok (refuse _ _)
        (λ _. optional validate_reference r.bearer >> optional (validate_client U) r.oauth_client)
        h in
    let (_, b, k2) = >>=-eq-ok (optional validate_reference r.bearer) _ k1 in
    All-append _ (to_list r.bearer) _ (optional-All r.bearer b)
      (client_secrets-All U r.oauth_client k2)

-- Every secret reference that `references` lists of a definition that was validated is valid: those
-- in the environment or the headers, the bearer and the client secret.
pub references-All :
    (U : UrlCrate) (d : Definition)
    → validate_definition U d ≡ ok tt
    → All IsValidReference (references d)
unfolding validate_definition validate_references references
references-All U (local l) h =
    let (_, h1, k1) = >>=-eq-ok (check_references (values l.env)) _ h in
    check_references-All (values l.env) h1
references-All U (remote r) h =
    let (_, h1, k1) = >>=-eq-ok (check_references (values r.headers)) _ h in
    let (_, h2, k2) = >>=-eq-ok (Authentication.validate U (remote r)) _ k1 in
    All-append _ (values r.headers) _ (check_references-All (values r.headers) h1)
      (remote_extra-All U r h2)
