-- ===== src/Config/Same.antt =====
-- config/schema.rs and config/authentication.rs: the derived equality of servers.
use ripmcp.Base.{Bool, true, false, not, ◌&&◌, Option, none, some, [], ◌∷◌}
use ripmcp.Base.BTreeMap.{BTreeMap, keys}
use ripmcp.Base.FilePath.{component_ord}
use ripmcp.Base.Order.{eqb, list_ord, nat_ord}
use ripmcp.Base.Text.{Text}
use ripmcp.Config.Types.{
  Runtime, npx, uvx, docker, Authentication, ClientAuthMethod, SecretReference, OAuthClient, Local,
  Remote, Definition, local, remote, Server,
}

abbrev pub same_bool : Bool → Bool → Bool
same_bool true b = b
same_bool false b = not b

module _ {ℓ} {A : Type ℓ} where
  abbrev pub same_option : (A → A → Bool) → Option A → Option A → Bool
  same_option same none none = true
  same_option same (some a) (some b) = same a b
  same_option same _ _ = false

abbrev pub same_runtime : Runtime → Runtime → Bool
same_runtime npx npx = true
same_runtime uvx uvx = true
same_runtime docker docker = true
same_runtime _ _ = false

abbrev pub same_authentication : Authentication → Authentication → Bool
same_authentication Authentication.none Authentication.none = true
same_authentication Authentication.oauth Authentication.oauth = true
same_authentication Authentication.bearer Authentication.bearer = true
same_authentication _ _ = false

abbrev pub same_method : ClientAuthMethod → ClientAuthMethod → Bool
same_method ClientAuthMethod.none ClientAuthMethod.none = true
same_method ClientAuthMethod.client_secret_post ClientAuthMethod.client_secret_post = true
same_method ClientAuthMethod.client_secret_basic ClientAuthMethod.client_secret_basic = true
same_method _ _ = false

abbrev pub same_reference : SecretReference → SecretReference → Bool
same_reference (SecretReference.environment a) (SecretReference.environment b) = eqb a b
same_reference (SecretReference.keyring a) (SecretReference.keyring b) = eqb a b
same_reference (SecretReference.stored a) (SecretReference.stored b) = eqb a b
same_reference _ _ = false

abbrev pub same_references : BTreeMap Text SecretReference → BTreeMap Text SecretReference → Bool
same_references [] [] = true
same_references ((k, a) ∷ m) ((j, b) ∷ n) = eqb k j && same_reference a b && same_references m n
same_references _ _ = false

unfoldable pub same_client : OAuthClient → OAuthClient → Bool
same_client a b =
    eqb a.issuer b.issuer
    && eqb a.client_id b.client_id
    && same_option same_reference a.client_secret b.client_secret
    && same_method a.token_endpoint_auth_method b.token_endpoint_auth_method
    && eqb a.scopes b.scopes

unfoldable pub same_local : Local → Local → Bool
same_local a b =
    same_runtime a.runtime b.runtime
    && eqb a.package_name b.package_name
    && eqb a.args b.args
    && same_references a.env b.env
    && same_option (λ p q. eqb p q) a.cwd b.cwd

unfoldable pub same_remote : Remote → Remote → Bool
unfolding same_client
same_remote a b =
    eqb a.url b.url
    && same_references a.headers b.headers
    && same_authentication a.authentication b.authentication
    && same_option same_reference a.bearer b.bearer
    && same_option same_client a.oauth_client b.oauth_client

unfoldable pub same_definition : Definition → Definition → Bool
unfolding same_local same_remote
same_definition (local a) (local b) = same_local a b
same_definition (remote a) (remote b) = same_remote a b
same_definition _ _ = false

unfoldable pub same_server : Server → Server → Bool
unfolding same_definition
same_server a b =
    same_bool a.enabled b.enabled
    && eqb (keys a.disabled_tools) (keys b.disabled_tools)
    && same_definition a.definition b.definition
