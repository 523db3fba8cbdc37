-- ===== src/Cleanup/Plan/Counts.antt =====
-- cleanup/plan.rs: a plan leaves out no live resource.
use ripmcp.Base.{
  ℕ, suc, ◌+◌, Bool, false, ◌≡◌, refl, ap, ◌∙◌, Option, none, some, List, [], ◌∷◌, length, leb,
  if◌then◌else◌, String, arith, Bool-cases, inl, inr,
}
use ripmcp.Base.FilePath.{component_ord}
use ripmcp.Base.Order.{list_ord, nat_ord}
use ripmcp.Base.Text.{Text}
use ripmcp.Ownership.Model.{
  ResourceIdentity, Resource, Installation, Journal, Artifacts, is_removed,
}
use ripmcp.Cleanup.Plan.{
  Listed, reason_of, list_one, list_resources, depth, insert_deep, sort_deep, plan_resources,
}

abbrev pub count_live : List Resource → ℕ
count_live [] = 0
count_live (r ∷ rs) = (if is_removed r then 0 else 1) + count_live rs

length-insert_deep :
    (x : ResourceIdentity) (ys : List ResourceIdentity)
    → length (insert_deep x ys) ≡ suc (length ys)
unfolding insert_deep
length-insert_deep x [] = refl
length-insert_deep x (y ∷ ys) = elim (Bool-cases (leb (depth y) (depth x))) [
  | inl e ↦ rw e refl
  | inr e ↦ rw e (ap suc (length-insert_deep x ys))
]

length-sort_deep : (xs : List ResourceIdentity) → length (sort_deep xs) ≡ length xs
unfolding sort_deep
length-sort_deep [] = refl
length-sort_deep (x ∷ xs) = length-insert_deep x (sort_deep xs) ∙ ap suc (length-sort_deep xs)

length-list_one :
    (reason : Option String) (identity : ResourceIdentity) (l : Listed)
    → length (list_one reason identity l).deletable + length (list_one reason identity l).preserved
      ≡ suc (length l.deletable + length l.preserved)
length-list_one none identity l = omega arith
length-list_one (some reason) identity l = omega arith

length-list_resources :
    (clean : Bool) (journal : Journal) (artifacts : Artifacts) (key : Text) (i : ℕ)
    (rs : List Resource)
    → length (list_resources clean journal artifacts key i rs).deletable
        + length (list_resources clean journal artifacts key i rs).preserved
      ≡ count_live rs
unfolding list_resources
length-list_resources clean journal artifacts key i [] = refl
length-list_resources clean journal artifacts key i (r ∷ rs) =
    let h = length-list_resources clean journal artifacts key (i + 1) rs in
    let one =
      length-list_one (reason_of clean journal (some (key, i)) r artifacts) r.identity
        (list_resources clean journal artifacts key (i + 1) rs) in
    elim (Bool-cases (is_removed r)) [
      | inl e ↦ rw e (omega (arith, h))
      | inr e ↦ rw e (omega (arith, one, h))
    ]

list_resources-false :
    (journal : Journal) (artifacts : Artifacts) (key : Text) (i : ℕ) (rs : List Resource)
    → (list_resources false journal artifacts key i rs).deletable ≡ []
unfolding list_resources
list_resources-false journal artifacts key i [] = refl
list_resources-false journal artifacts key i (r ∷ rs) =
    let h = list_resources-false journal artifacts key (i + 1) rs in
    elim (Bool-cases (is_removed r)) [ inl e ↦ rw e h | inr e ↦ rw e h ]

-- A plan accounts for every live resource of the installation: what it deletes and what it
-- preserves, with a reason, are together as many as the live resources; and without `--clean` it
-- deletes nothing.
pub plan_resources-count_live :
    (clean : Bool) (journal : Journal) (artifacts : Artifacts) (key : Text) (entry : Installation)
    → (length (plan_resources clean journal artifacts key entry).deletable
          + length (plan_resources clean journal artifacts key entry).preserved
        ≡ count_live entry.resources)
      × ((plan_resources false journal artifacts key entry).deletable ≡ [])
unfolding plan_resources sort_deep
plan_resources-count_live clean journal artifacts key entry =
    let h = length-list_resources clean journal artifacts key 0 entry.resources in
    (
      rw (length-sort_deep (list_resources clean journal artifacts key 0 entry.resources).deletable)
          h,
      ap sort_deep (list_resources-false journal artifacts key 0 entry.resources),
    )
