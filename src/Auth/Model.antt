-- ===== src/Auth/Model.antt =====
-- auth/mod.rs, auth/credentials.rs, auth/metadata.rs and auth/registration.rs: the data.
use ripmcp.Base.{
  ℕ, ◌+◌, Bool, false, not, ◌||◌, Option, none, some, List, is_empty, ltb, leb, if◌then◌else◌, ◌^◌,
}
use ripmcp.Base.Error.{Error, ErrorKind, Result, new, ok, refuse, ◌>>=◌, ◌>>◌}
use ripmcp.Base.Order.{eqb, list_ord, nat_ord}
use ripmcp.Base.Text.{Text}
use ripmcp.Config.Types.{OAuthClient}

abbrev pub invalid : Error
invalid = new ErrorKind.authentication "invalid OAuth response or credential binding"

abbrev pub required : Error
required = new ErrorKind.authentication "authentication required; run ripmcp auth login <server>"

abbrev pub unsupported : Error
unsupported =
    new ErrorKind.unsupported
      "OAuth provider lacks a supported registration or authorization method; configure your own OAuth client with auth configure --oauth-client-id, or use --bearer / --bearer-env"

pub record Authorization : Type 0 where
  pub issuer : Text
  pub authorization_endpoint : Text
  pub token_endpoint : Text
  pub registration_endpoint : Option Text
  pub code_challenge_methods_supported : Option (List Text)
  pub response_types_supported : List Text
  pub grant_types_supported : Option (List Text)
  pub token_endpoint_auth_methods_supported : Option (List Text)
  pub client_id_metadata_document_supported : Option Bool
  pub authorization_response_iss_parameter_supported : Option Bool

pub record Profile : Type 0 where
  pub resource : Text
  pub authorization : Authorization
  pub scope : Option Text

pub record Credential : Type 0 where
  pub endpoint : Text
  pub resource : Text
  pub issuer : Text
  pub client_id : Text
  pub token_endpoint : Text
  pub access_token : Text
  pub refresh_token : Option Text
  pub expires_at : Option ℕ
  pub issued_at : ℕ
  pub scope : Option Text

-- `Record`
pub record Saved : Type 0 where
  pub schema_version : ℕ
  pub generation : Text
  pub credential : Option Credential
  pub pending_scope : Option Text
  pub login_required : Bool

-- `Record::empty`, with its random generation.
abbrev pub empty_saved : Text → Saved
empty_saved generation = record {
  schema_version = 1;
  generation = generation;
  credential = none;
  pending_scope = none;
  login_required = false;
}

-- `Credential::validate`
unfoldable pub validate_credential : Credential → Text → Profile → Result (Unit {0})
validate_credential c endpoint profile =
    refuse
      (not (eqb c.endpoint endpoint)
        || not (eqb c.resource profile.resource)
        || not (eqb c.issuer profile.authorization.issuer)
        || not (eqb c.token_endpoint profile.authorization.token_endpoint)
        || is_empty c.client_id)
      required

-- `saturating_add` of 64 bits.
abbrev pub saturating_add : ℕ → ℕ → ℕ
saturating_add a b = if ltb (a + b) (2 ^ 64) then a + b else 18446744073709551615

abbrev pub expires_before : Option ℕ → ℕ → Bool
expires_before none limit = false
expires_before (some expiry) limit = leb expiry limit

-- `Credential::expired`, at the given time.
unfoldable pub expired : Credential → Result ℕ → Result Bool
expired c now = do
  current ← now
  ok (ltb current c.issued_at || expires_before c.expires_at (saturating_add current 30))

-- `Registration::check_issuer`
unfoldable pub check_issuer : OAuthClient → Text → Result (Unit {0})
check_issuer configuration issuer = refuse (not (eqb configuration.issuer issuer)) (
    new ErrorKind.authentication
      "OAuth issuer differs from the configured client registration; credentials were not sent")

-- `Registration::check_credential`
unfoldable pub check_credential : OAuthClient → Credential → Result (Unit {0})
unfolding check_issuer
check_credential configuration c = do
  check_issuer configuration c.issuer
  refuse (not (eqb c.client_id configuration.client_id)) required
