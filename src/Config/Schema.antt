-- ===== src/Config/Schema.antt =====
-- config/schema.rs: validation of a definition and of a whole configuration.
pub mod Laws
use ripmcp.Base.{
  Bool, false, not, ◌||◌, Option, none, some, List, [], ◌∷◌, any, is_empty, ◌==◌, if◌then◌else◌,
}
use ripmcp.Base.BTreeMap.{BTreeMap, keys, values}
use ripmcp.Base.Error.{Result, field, ok, err, refuse, ◌>>=◌, ◌>>◌}
use ripmcp.Base.FilePath.{FilePath, is_absolute, contains_nul}
use ripmcp.Base.Text.{Text, contains_char, is_control}
use ripmcp.Config.Authentication
use ripmcp.Config.Names.{environment_name, header_name, is_valid_reference}
use ripmcp.Config.Types.{
  SecretReference, Local, Remote, Definition, local, remote, Server, Configuration,
}
use ripmcp.Config.Url.{UrlCrate, endpoint}

abbrev pub starts_with_dash : Text → Bool
starts_with_dash [] = false
starts_with_dash (c ∷ _) = c == b'-'

abbrev pub has_control : Text → Bool
has_control = any is_control

abbrev pub bad_cwd : Option FilePath → Bool
bad_cwd none = false
bad_cwd (some path) = not (is_absolute path) || contains_nul path

-- The loop of `validate_references`, and the function.
unfoldable pub check_references : List SecretReference → Result (Unit {0})
check_references [] = ok tt
check_references (reference ∷ references) =
    let rest = check_references references in
    if is_valid_reference reference then rest else err (field "servers.definition.secret_reference")

unfoldable pub validate_references : Definition → Result (Unit {0})
unfolding check_references
validate_references (local l) = check_references (values l.env)
validate_references (remote r) = check_references (values r.headers)

unfoldable pub validate_local : Local → Result (Unit {0})
validate_local l = do
  refuse (is_empty l.package_name || starts_with_dash l.package_name || has_control l.package_name)
      (field "servers.definition.package")
  refuse (any (contains_char 0) l.args) (field "servers.definition.args")
  refuse (any (λ name. not (environment_name name)) (keys l.env)) (field "servers.definition.env")
  refuse (bad_cwd l.cwd) (field "servers.definition.cwd")

module _ (U : UrlCrate) where
  unfoldable pub validate_remote : Remote → Result (Unit {0})
  validate_remote r = do
    _ ← endpoint U r.url
    refuse (any (λ name. not (header_name name)) (keys r.headers))
        (field "servers.definition.headers")

  -- `Definition::validate`
  unfoldable pub validate_definition : Definition → Result (Unit {0})
  unfolding validate_local validate_remote
  validate_definition definition = do
    validate_references definition
    Authentication.validate U definition
    elim definition [ local l ↦ validate_local l | remote r ↦ validate_remote r ]

  -- The loop of `Configuration::validate`.
  unfoldable pub validate_servers : BTreeMap Text Server → Result (Unit {0})
  validate_servers [] = ok tt
  validate_servers ((name, server) ∷ servers) = do
    refuse (is_empty name || has_control name) (field "servers.name")
    refuse (any (λ tool. is_empty tool || has_control tool) (keys server.disabled_tools))
        (field "servers.disabled_tools")
    validate_definition server.definition
    validate_servers servers

  unfoldable pub validate : Configuration → Result (Unit {0})
  unfolding validate_servers
  validate config = validate_servers config.servers

  -- `Configuration::parse`. Reading the document is serde's, with the derived implementations; it
  -- gives the configuration, or the path of the field that it refused.
  module _ {ℓ} {Bytes : Type ℓ} (deserialize : Bytes → Result Configuration) where
    unfoldable pub parse : Bytes → Result Configuration
    parse bytes = do config ← deserialize bytes; validate config; ok config
