-- ===== src/Config/Names.antt =====
-- config/schema.rs and config/authentication.rs: the tests on names, keys and references.
use ripmcp.Base.{
  Bool, false, not, ◌&&◌, ◌||◌, Option, none, some, [], ◌∷◌, all, is_empty, ◌==◌, leb,
  if◌then◌else◌,
}
use ripmcp.Base.Error.{Result, field, ok, ok_or, ◌>>=◌}
use ripmcp.Base.Order.{eqb, list_ord, nat_ord}
use ripmcp.Base.Text.{
  Text, codes, len, contains_char, is_ascii_alphanumeric, is_ascii_alphabetic, is_ascii_digit,
}
use ripmcp.Config.Types.{SecretReference}

unfoldable pub opaque_key : Text → Bool
opaque_key value =
    not (is_empty value)
    && not (eqb value (codes ".") || eqb value (codes ".."))
    && all (λ byte. is_ascii_alphanumeric byte || contains_char byte (codes "_.-")) value

unfoldable pub environment_name : Text → Bool
environment_name [] = false
environment_name (byte ∷ bytes) =
    (is_ascii_alphabetic byte || byte == b'_')
    && all (λ b. is_ascii_alphanumeric b || b == b'_') bytes

unfoldable pub header_name : Text → Bool
header_name name =
    not (is_empty name)
    && all (λ byte. is_ascii_alphanumeric byte || contains_char byte (codes "!#$%&'*+-.^_`|~")) name

unfoldable pub stored_key : Text → Bool
stored_key key =
    len key == 64 && all (λ byte. is_ascii_digit byte || (leb b'a' byte && leb byte b'f')) key

-- What serde reads and writes for a reference.
pub data ReferenceWire : Type 0 where
  environment keyring stored : Text → ReferenceWire

-- `TryFrom<ReferenceWire>`; its error is a text that no caller keeps.
unfoldable pub try_from : ReferenceWire → Option SecretReference
try_from (ReferenceWire.environment env) =
    if environment_name env then some (SecretReference.environment env) else none
try_from (ReferenceWire.keyring key) =
    if opaque_key key then some (SecretReference.keyring key) else none
try_from (ReferenceWire.stored key) =
    if stored_key key then some (SecretReference.stored key) else none

unfoldable pub into_wire : SecretReference → ReferenceWire
into_wire (SecretReference.environment env) = ReferenceWire.environment env
into_wire (SecretReference.keyring key) = ReferenceWire.keyring key
into_wire (SecretReference.stored key) = ReferenceWire.stored key

-- The tests of `validate_references`.
unfoldable pub is_valid_reference : SecretReference → Bool
is_valid_reference (SecretReference.environment name) = environment_name name
is_valid_reference (SecretReference.keyring id) = opaque_key id
is_valid_reference (SecretReference.stored id) = stored_key id

-- `SecretReference::validate`: what serde writes is read back.
unfoldable pub validate_reference : SecretReference → Result (Unit {0})
unfolding try_from into_wire
validate_reference reference = do
  _ ← ok_or (try_from (into_wire reference)) (field "servers.definition.secret_reference")
  ok tt
