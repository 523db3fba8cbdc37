-- ===== src/Cleanup/Plan.antt =====
-- cleanup/plan.rs: which resources of an installation may be deleted, and which are preserved. A
-- resource of the journal is also known by its place, the key of its installation and its position,
-- as its address is in the source.
pub mod Build
pub mod Counts
pub mod Order
pub mod Owned
pub mod Promises
pub mod Resolve
use ripmcp.Base.{
  ℕ, zero, suc, ◌+◌, Bool, true, false, not, ◌&&◌, ◌||◌, Option, none, some, List, [], ◌∷◌, ◌++◌,
  any, length, is_none, is_some, ltb, leb, ◌==◌, String, if◌then◌else◌,
}
use ripmcp.Base.BTreeMap.{BTreeMap, get, values, contains_key}
use ripmcp.Base.Error.{Error, Result, new, configuration, ok, err, refuse, ok_or, ◌>>=◌, ◌>>◌}
use ripmcp.Base.FilePath.{FilePath, Component, normal, component_ord, starts_with}
use ripmcp.Base.Order.{eqb, list_ord, nat_ord}
use ripmcp.Base.Text.{Text, codes}
use ripmcp.Config.Effective.{Source}
use ripmcp.Config.Same.{same_definition}
use ripmcp.Config.Types.{Server}
use ripmcp.Ownership.Model.{
  ResourceIdentity, ResourceKind, Filesystem, Resource, Installation, Registration, OperationKind,
  OperationState, Operation, Journal, Artifacts, same_identity, is_removed, is_exclusive, overlaps,
  resources,
}

-- `Path::file_name`, of a path that ends in a name.
abbrev pub file_name : FilePath → Option Text
file_name [] = none
file_name (normal s ∷ []) = some s
file_name (c ∷ []) = none
file_name (c ∷ d ∷ path) = file_name (d ∷ path)

abbrev pub is_coordination : Option Text → Bool
is_coordination none = false
is_coordination (some s) =
    eqb s (codes "ownership.json")
    || eqb s (codes "artifacts.json")
    || eqb s (codes "self-removal.json")

abbrev pub is_metadata : ResourceIdentity → Bool
is_metadata (ResourceIdentity.path p) = is_coordination (file_name p)
is_metadata _ = false

-- The kinds that a server's installation may own.
abbrev pub is_data : ResourceKind → Bool
is_data ResourceKind.installation_directory = true
is_data ResourceKind.log = true
is_data ResourceKind.cache = true
is_data ResourceKind.data_ = true
is_data ResourceKind.symlink = true
is_data _ = false

abbrev pub is_link : ResourceKind → Bool
is_link ResourceKind.symlink = true
is_link _ = false

abbrev pub Place : Type 0
Place = Text × ℕ

abbrev pub owns : Option Place → Text → Installation → Bool
owns none key entry = false
owns (some (k, i)) key entry = eqb k key && ltb i (length entry.resources)

abbrev pub conflicts_in : Resource → Bool → List Resource → Bool
conflicts_in resource owner = any (λ (other : Resource).
    not (is_removed other)
    && (not owner || not (is_exclusive other))
    && overlaps resource.identity other.identity)

unfoldable pub conflicting_reference : BTreeMap Text Installation → Option Place → Resource → Bool
conflicting_reference [] at resource = false
conflicting_reference ((key, entry) ∷ rest) at resource =
    conflicts_in resource (owns at key entry) entry.resources
    || conflicting_reference rest at resource

abbrev pub count_references : Resource → List Resource → ℕ
count_references resource [] = 0
count_references resource (other ∷ others) =
    (if not (is_removed other) && same_identity resource.identity other.identity then 1 else 0)
    + count_references resource others

abbrev pub is_retained : Resource → List Installation → Bool
is_retained resource =
    any (λ (entry : Installation).
      any (λ other. overlaps resource.identity other) entry.retained_data)

abbrev pub is_artifact : Resource → List Resource → Bool
is_artifact resource = any (λ (artifact : Resource).
    not (is_removed artifact) && overlaps resource.identity artifact.identity)

-- The last tests, on the path and its proof.
unfoldable pub preserved_path :
    Journal → Option Place → Resource → FilePath → Filesystem → Option String
preserved_path journal at resource path proof =
    if is_none proof.created
    then some "immutable filesystem birth identity is unavailable; preserve uncertain resource"
    else if is_link resource.kind && not proof.symlink
    then some "recorded symlink identity does not describe a link"
    else if eqb path proof.root || not (starts_with path proof.root)
    then some "resource is outside recorded containment boundary"
    else if not (count_references resource (resources journal) == 1)
        || is_retained resource (values journal.installations)
        || conflicting_reference journal.installations at resource
    then some "duplicate, overlapping or retained ownership references"
    else none

abbrev pub is_project_part : FilePath → Bool
is_project_part = any (λ part. eqb part (normal (codes ".ripmcp")))

-- Those before them, on the identity and the proof of the resource.
unfoldable pub preserved_proof :
    Journal → Option Place → Resource → ResourceIdentity → Option Filesystem → Option String
unfolding preserved_path
preserved_proof journal at resource (ResourceIdentity.runtime r i) f =
    some "shared runtime resource"
preserved_proof journal at resource (ResourceIdentity.path path) none =
    if is_project_part path
    then some "project .ripmcp directories are always preserved"
    else some "no installation-time filesystem identity; ownership cannot be established"
preserved_proof journal at resource (ResourceIdentity.path path) (some proof) =
    if is_project_part path
    then some "project .ripmcp directories are always preserved"
    else preserved_path journal at resource path proof

-- Why a resource is preserved, if it is.
unfoldable pub preservation : Journal → Option Place → Resource → Artifacts → Option String
unfolding preserved_proof
preservation journal at resource artifacts =
    if is_metadata resource.identity
    then some "cleanup coordination metadata is never server-owned data"
    else if is_artifact resource (values artifacts)
    then some "application artifact is not exclusively owned by this server installation"
    else if not (is_exclusive resource)
    then some "external, shared or uncertain ownership"
    else if not (is_data resource.kind)
    then some "runtime, executable or setup resource requires separate provenance"
    else preserved_proof journal at resource resource.identity resource.filesystem

pub record Preserved : Type 0 where
  pub resource : ResourceIdentity
  pub reason : String

-- The two lists of `Plan` that `resources` fills.
pub record Listed : Type 0 where
  pub deletable : List ResourceIdentity
  pub preserved : List Preserved

abbrev pub reason_of : Bool → Journal → Option Place → Resource → Artifacts → Option String
reason_of clean journal at resource artifacts =
    if clean
    then preservation journal at resource artifacts
    else some "ordinary uninstall preserves installed data and caches"

abbrev pub list_one : Option String → ResourceIdentity → Listed → Listed
list_one none identity l = record l { deletable = identity ∷ l.deletable }
list_one (some reason) identity l = record l {
  preserved = record { resource = identity; reason = reason } ∷ l.preserved;
}

-- The loop, over the resources from the given position on.
unfoldable pub list_resources : Bool → Journal → Artifacts → Text → ℕ → List Resource → Listed
list_resources clean journal artifacts key i [] = record { deletable = []; preserved = [] }
list_resources clean journal artifacts key i (r ∷ rs) =
    let rest = list_resources clean journal artifacts key (i + 1) rs in
    if is_removed r
    then rest
    else list_one (reason_of clean journal (some (key, i)) r artifacts) r.identity rest

abbrev pub depth : ResourceIdentity → ℕ
depth (ResourceIdentity.path p) = length p
depth (ResourceIdentity.runtime r i) = 0

-- A stable sort by depth, the deepest first.
unfoldable pub insert_deep : ResourceIdentity → List ResourceIdentity → List ResourceIdentity
insert_deep x [] = x ∷ []
insert_deep x (y ∷ ys) = if leb (depth y) (depth x) then x ∷ y ∷ ys else y ∷ insert_deep x ys

unfoldable pub sort_deep : List ResourceIdentity → List ResourceIdentity
unfolding insert_deep
sort_deep [] = []
sort_deep (x ∷ xs) = insert_deep x (sort_deep xs)

-- `Plan::resources`, for the installation of that key.
unfoldable pub plan_resources : Bool → Journal → Artifacts → Text → Installation → Listed
plan_resources clean journal artifacts key entry =
    let l = list_resources clean journal artifacts key 0 entry.resources in
    record l { deletable = sort_deep l.deletable }
