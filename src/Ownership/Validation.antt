-- ===== src/Ownership/Validation.antt =====
-- ownership/: which journals and ledgers are accepted, and what proves that an object is the one that
-- was installed.
use ripmcp.Base.{
  ℕ, Bool, true, false, not, ◌&&◌, ◌||◌, Option, none, some, List, [], ◌∷◌, any, all, is_empty,
  ◌==◌, if◌then◌else◌,
}
use ripmcp.Base.BTreeMap.{BTreeMap, contains_key}
use ripmcp.Base.Error.{Error, Result, new, configuration, ok, err, refuse, ok_or, ◌>>=◌, ◌>>◌}
use ripmcp.Base.FilePath.{
  FilePath, Component, root_dir, normal, component_ord, is_absolute, starts_with,
}
use ripmcp.Base.Order.{eqb, list_ord, nat_ord}
use ripmcp.Base.Text.{Text, codes, len, is_ascii_hexdigit, is_ascii_uppercase}
use ripmcp.Config.Effective.{Source}
use ripmcp.Config.Schema.{validate_definition}
use ripmcp.Config.Types.{Server}
use ripmcp.Config.Url.{UrlCrate}
use ripmcp.Ownership.Model.{
  InstallationId, ResourceIdentity, ResourceKind, Filesystem, Resource, Installation, Operation,
  Executable, Journal, Artifacts, same_identity, is_exclusive, is_standalone,
}

abbrev pub invalid : Error
invalid = new configuration "ownership journal is corrupt or incompatible"

-- `TryFrom<String>` of `InstallationId`; no caller keeps its error.
unfoldable pub installation_id : Text → Option InstallationId
installation_id value =
    if len value == 32
      && all (λ byte. is_ascii_hexdigit byte && not (is_ascii_uppercase byte)) value
    then some value
    else none

abbrev pub is_root_or_normal : Component → Bool
is_root_or_normal root_dir = true
is_root_or_normal (normal _) = true
is_root_or_normal _ = false

-- `ResourceIdentity::validate`
unfoldable pub validate_identity : ResourceIdentity → Result (Unit {0})
validate_identity (ResourceIdentity.path p) =
    refuse (not (is_absolute p && not (eqb p (root_dir ∷ [])) && all is_root_or_normal p)) invalid
validate_identity (ResourceIdentity.runtime r i) = refuse (is_empty r || is_empty i) invalid

-- `Filesystem::validate`
unfoldable pub validate_filesystem : Filesystem → ResourceIdentity → Result (Unit {0})
unfolding validate_identity
validate_filesystem f identity = do
  validate_identity (ResourceIdentity.path f.root)
  elim identity [
    | ResourceIdentity.path p ↦
        refuse (eqb p f.root || not (starts_with p f.root) || f.inode == 0 || f.parent_inode == 0)
          invalid
    | ResourceIdentity.runtime r i ↦ err invalid
  ]

-- `std::fs::Metadata`, as far as it is looked at, and whether a directory is empty.
pub record Metadata : Type 0 where
  pub dev : ℕ
  pub ino : ℕ
  pub is_file : Bool
  pub is_dir : Bool
  pub is_symlink : Bool
  pub uid : ℕ
  pub nlink : ℕ
  -- `mode & 0o022 != 0`
  pub writable_by_others : Bool
  pub created : Option ℕ
  pub empty : Bool

abbrev pub proof_of : FilePath → Metadata → Metadata → Filesystem
proof_of root m parent = record {
  root = root;
  parent_device = parent.dev;
  parent_inode = parent.ino;
  device = m.dev;
  inode = m.ino;
  directory = m.is_dir;
  symlink = m.is_symlink;
  created = m.created;
}

-- `Filesystem::from_created`, for a process with the effective user `euid`.
unfoldable pub from_created : ℕ → FilePath → FilePath → Metadata → Metadata → Result Filesystem
unfolding validate_filesystem
from_created euid path root m parent = do
  refuse
      ((not m.is_file && not m.is_dir && not m.is_symlink)
        || not (m.uid == euid)
        || (not m.is_symlink && m.writable_by_others)
        || (not m.is_dir && not (m.nlink == 1)))
      invalid
  validate_filesystem (proof_of root m parent) (ResourceIdentity.path path)
  ok (proof_of root m parent)

abbrev pub iff : Bool → Bool → Bool
iff true b = b
iff false b = not b

abbrev pub same_time : Option ℕ → Option ℕ → Bool
same_time (some created) (some now) = created == now
same_time _ _ = false

-- `Filesystem::matches`
unfoldable pub matches : ℕ → Filesystem → Metadata → Bool
matches euid f m =
    m.dev == f.device
    && m.ino == f.inode
    && iff m.is_dir f.directory
    && iff m.is_symlink f.symlink
    && (m.is_dir || ((m.is_file || m.is_symlink) && m.nlink == 1))
    && m.uid == euid
    && (m.is_symlink || not m.writable_by_others)
    && same_time f.created m.created

abbrev pub validate_proof : Option Filesystem → ResourceIdentity → Result (Unit {0})
validate_proof none identity = ok tt
validate_proof (some f) identity = validate_filesystem f identity

unfoldable pub validate_resources : List Resource → Result (Unit {0})
validate_resources [] = ok tt
validate_resources (r ∷ rs) = do
  validate_identity r.identity
  validate_proof r.filesystem r.identity
  validate_resources rs

unfoldable pub validate_identities : List ResourceIdentity → Result (Unit {0})
validate_identities [] = ok tt
validate_identities (i ∷ is) = do validate_identity i; validate_identities is

abbrev pub scope_path : Source → FilePath
scope_path (Source.user config) = config
scope_path (Source.project root) = root

abbrev pub bad_digest : Option Text → Bool
bad_digest none = false
bad_digest (some digest) = not (len digest == 64) || not (all is_ascii_hexdigit digest)

abbrev pub is_kind : ResourceKind → ResourceKind → Bool
is_kind ResourceKind.executable ResourceKind.executable = true
is_kind ResourceKind.symlink ResourceKind.symlink = true
is_kind ResourceKind.data_ ResourceKind.data_ = true
is_kind _ _ = false

-- The links of the setup: `validate_link`.
unfoldable pub validate_link : Resource → Result (Unit {0})
validate_link r = do
  validate_identity r.identity
  f ← ok_or r.filesystem invalid
  validate_filesystem f r.identity
  refuse
      (not f.symlink
        || f.directory
        || not (is_exclusive r)
        || not (is_kind r.kind ResourceKind.symlink)
        || not (is_standalone r))
      invalid

unfoldable pub validate_links : List Resource → Result (Unit {0})
validate_links [] = ok tt
validate_links (r ∷ rs) = do validate_link r; validate_links rs

-- `Artifacts::validate`
unfoldable pub validate_artifacts : Artifacts → Result (Unit {0})
validate_artifacts [] = ok tt
validate_artifacts ((path, r) ∷ files) = do
  refuse
      (not (is_exclusive r)
        || not (is_kind r.kind ResourceKind.data_)
        || not (is_standalone r)
        || any (λ part. eqb part (normal (codes ".ripmcp"))) path)
      invalid
  refuse (not (same_identity r.identity (ResourceIdentity.path path))) invalid
  validate_identity r.identity
  f ← ok_or r.filesystem invalid
  validate_filesystem f r.identity
  validate_artifacts files

-- `Executable::validate`
unfoldable pub validate_executable : Executable → Result (Unit {0})
unfolding validate_links
validate_executable (Executable.standalone r sha256 setup) = do
  validate_identity r.identity
  f ← ok_or r.filesystem invalid
  validate_filesystem f r.identity
  refuse
      (f.directory
        || f.symlink
        || not (is_exclusive r)
        || not (is_kind r.kind ResourceKind.executable)
        || not (is_standalone r)
        || not (len sha256 == 64)
        || not (all is_ascii_hexdigit sha256))
      invalid
  validate_links setup
validate_executable (Executable.package_manager manager) = refuse (is_empty manager) invalid
validate_executable Executable.unknown = ok tt

module _ (U : UrlCrate) where
  abbrev pub validate_server : Option Server → Result (Unit {0})
  validate_server none = ok tt
  validate_server (some server) = validate_definition U server.definition

  -- `Installation::validate`
  unfoldable pub validate_installation : Installation → Result (Unit {0})
  unfolding validate_resources validate_identities
  validate_installation i = do
    refuse (is_empty i.server) invalid
    validate_server i.definition
    refuse (bad_digest i.configuration_digest) invalid
    validate_identity (ResourceIdentity.path (scope_path i.scope))
    validate_resources i.resources
    validate_identities i.retained_data

  unfoldable pub validate_installations : BTreeMap Text Installation → Result (Unit {0})
  validate_installations [] = ok tt
  validate_installations ((key, i) ∷ rest) = do
    refuse (not (eqb key i.id)) invalid
    validate_installation i
    validate_installations rest

  unfoldable pub validate_operations :
      BTreeMap Text Installation → BTreeMap Text Operation → Result (Unit {0})
  validate_operations installations [] = ok tt
  validate_operations installations ((key, o) ∷ rest) = do
    validate_identities o.resources
    refuse (not (eqb key o.id) || not (contains_key o.installation_id installations)) invalid
    validate_operations installations rest

  -- `Journal::validate`
  unfoldable pub validate_journal : Journal → Result (Unit {0})
  unfolding validate_installations validate_operations
  validate_journal journal = do
    validate_executable journal.executable
    validate_installations journal.installations
    validate_operations journal.installations journal.operations
