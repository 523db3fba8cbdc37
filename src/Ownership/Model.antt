-- ===== src/Ownership/Model.antt =====
-- ownership/model.rs, ownership/filesystem.rs, ownership/executable.rs, ownership/artifacts.rs and
-- ownership/mod.rs: the data of the journal. A time of creation is a number of nanoseconds.
use ripmcp.Base.{ℕ, Bool, true, false, ◌&&◌, ◌||◌, Option, List, [], ◌∷◌, ◌++◌}
use ripmcp.Base.BTreeMap.{BTreeMap, values}
use ripmcp.Base.FilePath.{FilePath, component_ord, starts_with}
use ripmcp.Base.Order.{eqb, list_ord, nat_ord}
use ripmcp.Base.Text.{Text}
use ripmcp.Config.Effective.{Source}
use ripmcp.Config.Types.{Runtime, Server}

abbrev pub InstallationId : Type 0
InstallationId = Text

pub data Origin : Type 0 where
  local : Runtime → Text → Option Text → Option FilePath → Origin
  remote : Text → Origin
  standalone : Origin
  package_manager : Text → Origin
  unknown : Origin

pub data Verification : Type 0 where
  unknown unverified verified : Verification

pub data Registration : Type 0 where
  registered unregistered : Registration

pub data Ownership : Type 0 where
  exclusive shared unknown : Ownership

pub data ResourceKind : Type 0 where
  installation_directory log cache data_ container : ResourceKind
  image volume executable symlink shell_setup : ResourceKind

pub data ResourceIdentity : Type 0 where
  path : FilePath → ResourceIdentity
  runtime : Text → Text → ResourceIdentity

pub data CleanupState : Type 0 where
  pending removed preserved retry_required : CleanupState

pub record Filesystem : Type 0 where
  pub root : FilePath
  pub parent_device : ℕ
  pub parent_inode : ℕ
  pub device : ℕ
  pub inode : ℕ
  pub directory : Bool
  pub symlink : Bool
  pub created : Option ℕ

pub record Resource : Type 0 where
  pub kind : ResourceKind
  pub identity : ResourceIdentity
  pub origin : Origin
  pub ownership : Ownership
  pub cleanup : CleanupState
  pub filesystem : Option Filesystem

pub record Installation : Type 0 where
  pub id : InstallationId
  pub scope : Source
  pub server : Text
  pub origin : Origin
  pub registration : Registration
  pub verification : Verification
  pub definition : Option Server
  pub configuration_digest : Option Text
  pub resources : List Resource
  pub retained_data : List ResourceIdentity

pub data OperationKind : Type 0 where
  install unregister clean self_uninstall : OperationKind

pub data OperationState : Type 0 where
  prepared applying committed retry_required : OperationState

pub record Operation : Type 0 where
  pub id : InstallationId
  pub installation_id : InstallationId
  pub kind : OperationKind
  pub state : OperationState
  pub resources : List ResourceIdentity

pub data Executable : Type 0 where
  standalone : Resource → Text → List Resource → Executable
  package_manager : Text → Executable
  unknown : Executable

pub record Journal : Type 0 where
  pub installations : BTreeMap Text Installation
  pub operations : BTreeMap Text Operation
  pub executable : Executable

-- `Artifacts`
abbrev pub Artifacts : Type 0
Artifacts = BTreeMap FilePath Resource

-- The derived equality of `ResourceIdentity`.
abbrev pub same_identity : ResourceIdentity → ResourceIdentity → Bool
same_identity (path a) (path b) = eqb a b
same_identity (runtime a x) (runtime b y) = eqb a b && eqb x y
same_identity _ _ = false

abbrev pub is_removed : Resource → Bool
is_removed r = elim r.cleanup [ CleanupState.removed ↦ true | _ ↦ false ]

abbrev pub is_exclusive : Resource → Bool
is_exclusive r = elim r.ownership [ Ownership.exclusive ↦ true | _ ↦ false ]

abbrev pub is_standalone : Resource → Bool
is_standalone r = elim r.origin [ Origin.standalone ↦ true | _ ↦ false ]

-- `overlaps` of cleanup/plan.rs
unfoldable pub overlaps : ResourceIdentity → ResourceIdentity → Bool
overlaps (path left) (path right) = starts_with left right || starts_with right left
overlaps left right = same_identity left right

abbrev pub setup_of : Executable → List Resource
setup_of (Executable.standalone resource sha256 setup) = setup
setup_of _ = []

abbrev pub resources_of : List Installation → List Resource
resources_of [] = []
resources_of (entry ∷ entries) = entry.resources ++ resources_of entries

-- `Journal::resources`
unfoldable pub resources : Journal → List Resource
resources journal = resources_of (values journal.installations) ++ setup_of journal.executable
