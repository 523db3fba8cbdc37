-- ===== src/Cleanup/Plan/Owned.antt =====
-- cleanup/plan.rs: a plan deletes only what is proved to be the installation's own, and no directory
-- before what it contains.
use ripmcp.Cleanup.Plan.Order.{IsDeepFirst, IsDeepFirst-sort_deep, All-weaken, All-sort_deep}
use mathlib.Core.Option.{none-ne-some}
use ripmcp.Base.{
  ℕ, ◌+◌, Bool, true, false, not, ◌&&◌, ◌≡◌, refl, sym, Option, none, some, List, [], ◌∷◌, any,
  is_some, if◌then◌else◌, String, arith, Bool-cases, inl, inr, ◌⊎◌, All,
}
use ripmcp.Base.BTreeMap.{BTreeMap, values}
use ripmcp.Base.FilePath.{FilePath, component_ord, starts_with}
use ripmcp.Base.Order.{eqb, list_ord, nat_ord}
use ripmcp.Base.Text.{Text}
use ripmcp.Ownership.Model.{
  ResourceIdentity, Filesystem, Resource, Installation, Journal, Artifacts, is_removed,
  is_exclusive, overlaps,
}
use ripmcp.Cleanup.Plan.{
  Place, is_project_part, is_metadata, is_data, owns, conflicts_in, conflicting_reference,
  is_artifact, is_retained, preserved_path, preserved_proof, preservation, Listed, list_one,
  list_resources, plan_resources,
}

-- No live resource of another installation overlaps the identity.
abbrev pub IsApart : Text → ResourceIdentity → BTreeMap Text Installation → Type 0
IsApart key identity [] = Unit
IsApart key identity ((k, entry) ∷ rest) =
    ((not (eqb key k)
        && any (λ (other : Resource). not (is_removed other) && overlaps identity other.identity)
            entry.resources)
      ≡ false)
    × IsApart key identity rest

-- What a resource that is deleted has.
pub record IsOwned (journal : Journal) (artifacts : Artifacts) (key : Text) (r : Resource)
    : Type 0 where
  pub path : FilePath
  pub proof : Filesystem
  pub at : r.identity ≡ ResourceIdentity.path path
  pub proved : r.filesystem ≡ some proof
  pub born : is_some proof.created ≡ true
  pub exclusive : is_exclusive r ≡ true
  pub within : starts_with path proof.root ≡ true
  pub below : eqb path proof.root ≡ false
  pub no_artifact : is_artifact r (values artifacts) ≡ false
  pub not_retained : is_retained r (values journal.installations) ≡ false
  pub apart : IsApart key r.identity journal.installations

others_of :
    (r : Resource) (owner : Bool) (rs : List Resource)
    → conflicts_in r owner rs ≡ false
    → (not owner
        && any
            (λ (other : Resource). not (is_removed other) && overlaps r.identity other.identity)
            rs)
      ≡ false
others_of r owner [] h = ground arith
others_of r owner (other ∷ rs) h = ground (arith, others_of r owner rs)

conflicting-IsApart :
    (key : Text) (i : ℕ) (r : Resource) (m : BTreeMap Text Installation)
    → conflicting_reference m (some (key, i)) r ≡ false
    → IsApart key r.identity m
unfolding conflicting_reference
conflicting-IsApart key i r [] h = tt
conflicting-IsApart key i r ((k, entry) ∷ rest) h = (
  ground (arith, others_of r (owns (some (key, i)) k entry) entry.resources),
  conflicting-IsApart key i r rest (ground arith),
)

preserved_path-IsOwned :
    (journal : Journal) (key : Text) (i : ℕ) (r : Resource) (path : FilePath) (proof : Filesystem)
    → preserved_path journal (some (key, i)) r path proof ≡ none
    → (is_some proof.created ≡ true)
      × (starts_with path proof.root ≡ true)
      × (eqb path proof.root ≡ false)
      × (is_retained r (values journal.installations) ≡ false)
      × (conflicting_reference journal.installations (some (key, i)) r ≡ false)
unfolding preserved_path
preserved_path-IsOwned journal key i r path proof h = ground arith

-- A test that does not preserve.
passed :
    (b : Bool) (x : String) (o : Option String)
    → (if b then some x else o) ≡ none
    → (b ≡ false) × (o ≡ none)
passed true x o h = cc
passed false x o h = (refl, h)

not-false : {b : Bool} → not b ≡ false → b ≡ true
not-false {b} h = ground arith

preserved_proof-eq-none :
    (journal : Journal) (at : Option Place) (r : Resource) (identity : ResourceIdentity)
    (filesystem : Option Filesystem)
    → preserved_proof journal at r identity filesystem ≡ none
    → (path : FilePath) × (proof : Filesystem) × (identity ≡ ResourceIdentity.path path)
      × (filesystem ≡ some proof)
      × (preserved_path journal at r path proof ≡ none)
unfolding preserved_proof
preserved_proof-eq-none journal at r (ResourceIdentity.runtime k i) filesystem h = cc
preserved_proof-eq-none journal at r (ResourceIdentity.path path) none h =
    absurd (none-ne-some _ (sym (passed (is_project_part path) _ (some _) h).1))
preserved_proof-eq-none journal at r (ResourceIdentity.path path) (some proof) h = (
  path,
  proof,
  refl,
  refl,
  (passed (is_project_part path) _ (preserved_path journal at r path proof) h).1,
)

pub preservation-IsOwned :
    (journal : Journal) (artifacts : Artifacts) (key : Text) (i : ℕ) (r : Resource)
    → preservation journal (some (key, i)) r artifacts ≡ none
    → IsOwned journal artifacts key r
unfolding preservation
preservation-IsOwned journal artifacts key i r h =
    let (_, h1) = passed (is_metadata r.identity) _ _ h in
    let (artifact, h2) = passed (is_artifact r (values artifacts)) _ _ h1 in
    let (exclusive, h3) = passed (not (is_exclusive r)) _ _ h2 in
    let (_, h4) = passed (not (is_data r.kind)) _ _ h3 in
    let (path, proof, at, proved, h5) =
      preserved_proof-eq-none journal (some (key, i)) r r.identity r.filesystem h4 in
    let (born, within, below, retained, apart) =
      preserved_path-IsOwned journal key i r path proof h5 in
    record {
      path = path;
      proof = proof;
      at = at;
      proved = proved;
      born = born;
      exclusive = not-false exclusive;
      within = within;
      below = below;
      no_artifact = artifact;
      not_retained = retained;
      apart = conflicting-IsApart key i r journal.installations apart;
    }

-- The identity is that of a live resource of the list which is owned.
pub IsListed : Journal → Artifacts → Text → List Resource → ResourceIdentity → Type 0
IsListed journal artifacts key [] identity = ⊥
IsListed journal artifacts key (r ∷ rs) identity =
    ((identity ≡ r.identity) × (is_removed r ≡ false) × IsOwned journal artifacts key r)
    ⊎ IsListed journal artifacts key rs identity

list_one-All :
    (P : ResourceIdentity → Type 0) (reason : Option String) (identity : ResourceIdentity)
    (l : Listed)
    → (reason ≡ none → P identity)
    → All P l.deletable
    → All P (list_one reason identity l).deletable
list_one-All P none identity l p h = (p refl, h)
list_one-All P (some reason) identity l p h = h

list_resources-IsListed :
    (journal : Journal) (artifacts : Artifacts) (key : Text) (i : ℕ) (rs : List Resource)
    → All
        (IsListed journal artifacts key rs)
        (list_resources true journal artifacts key i rs).deletable
unfolding list_resources IsListed
list_resources-IsListed journal artifacts key i [] = tt
list_resources-IsListed journal artifacts key i (r ∷ rs) =
    let rest =
      All-weaken _ (IsListed journal artifacts key (r ∷ rs)) _ (λ x h. inr h)
        (list_resources-IsListed journal artifacts key (i + 1) rs) in
    elim (Bool-cases (is_removed r)) [
      | inl e ↦ rw e rest
      | inr e ↦ rw e (
          list_one-All _ (preservation journal (some (key, i)) r artifacts) r.identity
            (list_resources true journal artifacts key (i + 1) rs)
            (λ h. inl (refl, e, preservation-IsOwned journal artifacts key i r h)) rest)
    ]

-- What a plan with `--clean` deletes is each a live resource of the installation that is owned: it
-- has a path with a proof of its creation, inside the boundary of that proof and not the boundary
-- itself, belongs to no application, is retained by no installation and overlaps no live resource
-- of another installation. No directory is deleted before anything deeper.
pub plan_resources-IsListed :
    (journal : Journal) (artifacts : Artifacts) (key : Text) (entry : Installation)
    → All
        (IsListed journal artifacts key entry.resources)
        (plan_resources true journal artifacts key entry).deletable
      × IsDeepFirst (plan_resources true journal artifacts key entry).deletable
unfolding plan_resources
plan_resources-IsListed journal artifacts key entry =
    let l = (list_resources true journal artifacts key 0 entry.resources).deletable in
    (
      All-sort_deep _ l (list_resources-IsListed journal artifacts key 0 entry.resources),
      IsDeepFirst-sort_deep l,
    )
