-- ===== src/Config/Types.antt =====
-- config/schema.rs, config/authentication.rs and deadline.rs: the data of a configuration.
use ripmcp.Base.{ℕ, Bool, Option, List}
use ripmcp.Base.BTreeMap.{BTreeMap, BTreeSet}
use ripmcp.Base.FilePath.{FilePath}
use ripmcp.Base.Text.{Text}

pub data Runtime : Type 0 where
  npx uvx docker : Runtime

pub data Authentication : Type 0 where
  none oauth bearer : Authentication

pub data ClientAuthMethod : Type 0 where
  none client_secret_post client_secret_basic : ClientAuthMethod

pub data SecretReference : Type 0 where
  environment keyring stored : Text → SecretReference

pub record OAuthClient : Type 0 where
  pub issuer : Text
  pub client_id : Text
  pub client_secret : Option SecretReference
  pub token_endpoint_auth_method : ClientAuthMethod
  pub scopes : List Text

-- The transports are types with one value, and have no field here.
pub record Local : Type 0 where
  pub runtime : Runtime
  pub package_name : Text
  pub args : List Text
  pub env : BTreeMap Text SecretReference
  pub cwd : Option FilePath

pub record Remote : Type 0 where
  pub url : Text
  pub headers : BTreeMap Text SecretReference
  pub authentication : Authentication
  pub bearer : Option SecretReference
  pub oauth_client : Option OAuthClient

pub data Definition : Type 0 where
  local : Local → Definition
  remote : Remote → Definition

pub record Server : Type 0 where
  pub enabled : Bool
  pub disabled_tools : BTreeSet Text
  pub definition : Definition

-- Both are nonzero: `NonZeroU64`.
pub record Timeouts : Type 0 where
  pub operation_seconds : ℕ
  pub login_seconds : ℕ

pub record Configuration : Type 0 where
  pub servers : BTreeMap Text Server
  pub timeouts : Option Timeouts
