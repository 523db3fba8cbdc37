-- ===== src/Cleanup/Journal/Applied.antt =====
-- cleanup/journal.rs: a removal is only ever tried on what is owned.
use mathlib.Core.Option.{some-injective}
use mathlib.Core.Path.{subst}
use ripmcp.Base.{
  ℕ, ◌≡◌, refl, ap, Option, none, some, is_some, if◌then◌else◌, String, true, List, [], ◌∷◌, ◌++◌,
  Bool-cases, inl, inr, ◌+◌,
}
use ripmcp.Base.BTreeMap.{get}
use ripmcp.Base.Error.{Result, ok, err, ok_or, ◌>>=◌, ok_or-eq-ok}
use ripmcp.Base.Order.{list_ord, nat_ord}
use ripmcp.Base.Text.{Text}
use ripmcp.Cleanup.Journal.{PlanView, apply, position, set_cleanup, cleanup_after, with_resources}
use ripmcp.Cleanup.Plan.{preservation}
use ripmcp.Cleanup.Plan.Owned.{IsOwned, preservation-IsOwned}
use ripmcp.Cleanup.Remove.{changed}
use ripmcp.Ownership.Model.{
  ResourceIdentity, Resource, Installation, Journal, Artifacts, same_identity,
}

-- The resource is listed in the plan's installation under the planned identity, and owned.
pub record IsPlanned (artifacts : Artifacts) (journal : Journal) (plan : PlanView)
    (identity : ResourceIdentity) (r : Resource) : Type 0 where
  pub id : Text
  pub entry : Installation
  pub before : List Resource
  pub after : List Resource
  pub planned : plan.installation ≡ some id
  pub listed : get id journal.installations ≡ some entry
  pub contained : entry.resources ≡ before ++ (r ∷ after)
  pub identified : same_identity r.identity identity ≡ true
  pub owned : IsOwned journal artifacts id r

-- A list in which the resource stands, with that identity.
IsFound : ResourceIdentity → List Resource → Resource → Type 0
IsFound identity rs r =
    (before : List Resource) × (after : List Resource) × (rs ≡ before ++ (r ∷ after))
    × (same_identity r.identity identity ≡ true)

position-IsFound :
    (identity : ResourceIdentity) (n : ℕ) (rs : List Resource) {i : ℕ} {r : Resource}
    → position identity n rs ≡ some (i, r)
    → IsFound identity rs r
unfolding position IsFound
position-IsFound identity n [] h = cc
position-IsFound identity n (x ∷ rs) {r} h = elim (Bool-cases (same_identity x.identity identity)) [
  | inl e ↦
      let same : x ≡ r = ap (λ (p : ℕ × Resource). p.1) (some-injective _ _ (rw e at h)) in
      ([], rs, ap (λ y. y ∷ rs) same, subst (λ y. same_identity y.identity identity ≡ true) same e)
  | inr e ↦
      let (before, after, split, found) = position-IsFound identity (n + 1) rs (rw e at h) in
      (x ∷ before, after, ap {B = List Resource} (λ l. x ∷ l) split, found)
]

-- The same action goes on in the same way, if it does after what it gives.
>>=-eq :
    {A B : Type 0} (m : Result A) (f g : A → Result B)
    → ((a : A) → m ≡ ok a → f a ≡ g a)
    → (m >>= f) ≡ (m >>= g)
>>=-eq (ok a) f g h = h a refl
>>=-eq (err e) f g h = refl

module _ (f g : Resource → Result (Unit {0})) (artifacts : Artifacts) (journal : Journal) where
  abbrev outcome :
      (Resource → Result (Unit {0}))
      → ResourceIdentity
      → Text
      → Installation
      → ℕ
      → Resource
      → Option String
      → Result (Result (Unit {0}) × Journal)
  outcome remove identity id entry index resource reason =
      if is_some reason
      then ok (err changed, journal)
      else ok (
        remove resource,
        with_resources id entry
            (set_cleanup identity (cleanup_after (remove resource)) entry.resources) journal,
      )

  outcome_lem :
      (identity : ResourceIdentity) (id : Text) (entry : Installation) (index : ℕ)
      (resource : Resource) (reason : Option String)
      → (reason ≡ none → f resource ≡ g resource)
      → outcome f identity id entry index resource reason
        ≡ outcome g identity id entry index resource reason
  outcome_lem identity id entry index resource none h =
      ap
        (λ result. ok (
          result,
          with_resources id entry (set_cleanup identity (cleanup_after result) entry.resources)
              journal,
        ))
        (h refl)
  outcome_lem identity id entry index resource (some reason) h = refl

  -- Two ways to remove a resource give the same result and the same journal if they agree on the
  -- resources that the plan's installation lists under the given identity and owns: `apply` never
  -- uses the removal on another resource.
  pub apply-IsPlanned :
      (plan : PlanView) (identity : ResourceIdentity)
      → ((r : Resource) → IsPlanned artifacts journal plan identity r → f r ≡ g r)
      → apply f plan identity artifacts journal ≡ apply g plan identity artifacts journal
  unfolding apply IsFound
  apply-IsPlanned plan identity agree = >>=-eq (ok_or plan.installation changed) _ _ λ id a.
      >>=-eq (ok_or (get id journal.installations) changed) _ _ λ entry b.
        >>=-eq (ok_or (position identity 0 entry.resources) changed) _ _ λ (index, resource) c.
          let (before, after, split, found) =
            position-IsFound identity 0 entry.resources
              (ok_or-eq-ok (position identity 0 entry.resources) changed c) in
          outcome_lem identity id entry index resource
            (preservation journal (some (id, index)) resource artifacts)
            (λ h. agree resource (record {
              id = id;
              entry = entry;
              before = before;
              after = after;
              planned = ok_or-eq-ok plan.installation changed a;
              listed = ok_or-eq-ok (get id journal.installations) changed b;
              contained = split;
              identified = found;
              owned = preservation-IsOwned journal artifacts id index resource h;
            }))
