-- ===== src/Cleanup/Journal/Steps.antt =====
-- cleanup/journal.rs: the changes that a removal makes of the journal, one after the other.
use ripmcp.Base.{
  Bool, true, false, ◌≡◌, refl, sym, ap, ◌∙◌, some, is_some, if◌then◌else◌, arith, Bool-cases, inl,
  inr,
}
use ripmcp.Base.BTreeMap.{BTreeMap, get, contains_key, get-insert}
use ripmcp.Base.BTreeMap
use ripmcp.Base.Error.{Result, ok, ok_or, >>=-eq-ok, ok-injective, ok_or-eq-ok, refuse}
use ripmcp.Base.Order.{eqb, eqb_iff, list_ord, nat_ord}
use ripmcp.Base.Text.{Text}
use ripmcp.Config.Url.{UrlCrate}
use ripmcp.Cleanup.Plan.{preservation}
use ripmcp.Cleanup.Remove.{changed}
use ripmcp.Cleanup.Journal.{
  PlanView, begin, finish, unregistered, apply, position, set_cleanup, cleanup_after, operation_of,
  state_after,
}
use ripmcp.Cleanup.Journal.Valid.{
  Passes, validate_resources-set_cleanup, validate_installation-resources,
  validate_installation-registration, resources-validate_installation, validate_installations-get,
  validate_installations-insert, validate_operations-more, validate_operations-insert,
  validate_operations-get,
}
use ripmcp.Ownership.Model.{
  ResourceIdentity, Resource, Registration, Installation, Operation, Journal, Artifacts,
}
use ripmcp.Ownership.Validation.{
  validate_identities, validate_installation, validate_installations, validate_operations,
  validate_executable, validate_journal,
}

module _ (U : UrlCrate) where
  journal_parts :
      (j : Journal)
      → Passes (validate_journal U j)
      → Passes (validate_executable j.executable)
        × Passes (validate_installations U j.installations)
        × Passes (validate_operations U j.installations j.operations)
  unfolding validate_journal
  journal_parts j h = ground arith

  with_installation-valid :
      (j : Journal) (id : Text) (entry entry' : Installation)
      → Passes (validate_journal U j)
      → get id j.installations ≡ some entry
      → entry'.id ≡ entry.id
      → Passes (validate_installation U entry')
      → Passes (
          validate_journal U
            (record j { installations = BTreeMap.insert id entry' j.installations }))
  unfolding validate_journal
  with_installation-valid j id entry entry' h found same valid =
      let (e, i, o) = journal_parts j h in
      let (key, _) = validate_installations-get U id entry j.installations i found in
      let i' =
        validate_installations-insert U id entry' j.installations (ap (eqb id) same ∙ key) valid
          i in
      let o' =
        validate_operations-more U j.installations (BTreeMap.insert id entry' j.installations)
          j.operations (λ key h. ground (arith, get-insert key id entry' j.installations)) o in
      ground arith

  with_operation-valid :
      (j : Journal) (id : Text) (entry : Installation) (op : Operation)
      → Passes (validate_journal U j)
      → get id j.installations ≡ some entry
      → op.id ≡ entry.id
      → op.installation_id ≡ entry.id
      → Passes (validate_identities op.resources)
      → Passes (validate_journal U (record j { operations = BTreeMap.insert id op j.operations }))
  unfolding validate_journal
  with_operation-valid j id entry op h found same same' valid =
      let (e, i, o) = journal_parts j h in
      let (key, _) = validate_installations-get U id entry j.installations i found in
      let there : contains_key op.installation_id j.installations ≡ true =
        ap (λ k. is_some (get k j.installations)) (same' ∙ sym ((eqb_iff id entry.id).0 key))
        ∙ ap is_some found in
      let o' =
        validate_operations-insert U j.installations id op j.operations valid
          (ap (eqb id) same ∙ key) there o in
      ground arith

  begin-valid :
      (digest : Journal → Result Text) (plan : PlanView) (clean : Bool) (id : Text) (j j' : Journal)
      → Passes (validate_identities plan.deletable)
      → Passes (validate_journal U j)
      → begin digest plan clean id j ≡ ok (tt, j')
      → Passes (validate_journal U j')
  unfolding begin
  begin-valid digest plan clean id j j' listed h k =
      let (current, _, k1) = >>=-eq-ok (digest j) _ k in
      let (u, _, k2) =
        >>=-eq-ok (refuse (if eqb current plan.ownership_digest then false else true) changed) _
          k1 in
      let (entry, found, k3) = >>=-eq-ok (ok_or (get id j.installations) changed) _ k2 in
      let e = ap (λ (p : Unit {0} × Journal). p.1) (ok-injective k3) in
      rw⁻¹ e (
        with_operation-valid j id entry (operation_of entry.id clean plan.deletable) h
          (ok_or-eq-ok _ _ found) refl refl listed)

  unregistered-valid :
      (id : Text) (j j' : Journal)
      → Passes (validate_journal U j)
      → unregistered id j ≡ ok (tt, j')
      → Passes (validate_journal U j')
  unfolding unregistered
  unregistered-valid id j j' h k =
      let (entry, found, k1) = >>=-eq-ok (ok_or (get id j.installations) changed) _ k in
      let e = ap (λ (p : Unit {0} × Journal). p.1) (ok-injective k1) in
      let there = ok_or-eq-ok _ _ found in
      let (_, valid) =
        validate_installations-get U id entry j.installations (journal_parts j h).1 there in
      rw⁻¹ e (
        with_installation-valid j id entry _ h there refl
          (validate_installation-registration U entry Registration.unregistered valid))

  finish-valid :
      (succeeded : Bool) (id : Text) (j j' : Journal)
      → Passes (validate_journal U j)
      → finish succeeded id j ≡ ok (tt, j')
      → Passes (validate_journal U j')
  unfolding finish validate_journal
  finish-valid succeeded id j j' h k =
      let (op, found, k1) = >>=-eq-ok (ok_or (get id j.operations) changed) _ k in
      let same = ap (λ (p : Unit {0} × Journal). p.1) (ok-injective k1) in
      let (e, i, o) = journal_parts j h in
      let (listed, key, there) =
        validate_operations-get U j.installations id op j.operations o (ok_or-eq-ok _ _ found) in
      let o' =
        validate_operations-insert U j.installations id
          (record op { state = state_after succeeded }) j.operations listed key there o in
      rw⁻¹ same (ground arith)

  apply-valid :
      (remove : Resource → Result (Unit {0})) (plan : PlanView) (identity : ResourceIdentity)
      (artifacts : Artifacts) (j j' : Journal) (r : Result (Unit {0}))
      → Passes (validate_journal U j)
      → apply remove plan identity artifacts j ≡ ok (r, j')
      → Passes (validate_journal U j')
  unfolding apply
  apply-valid remove plan identity artifacts j j' r h k =
      let (id, _, k1) = >>=-eq-ok (ok_or plan.installation changed) _ k in
      let (entry, found, k2) = >>=-eq-ok (ok_or (get id j.installations) changed) _ k1 in
      let ((index, resource), _, k3) =
        >>=-eq-ok (ok_or (position identity 0 entry.resources) changed) _ k2 in
      let there = ok_or-eq-ok _ _ found in
      let (_, valid) =
        validate_installations-get U id entry j.installations (journal_parts j h).1 there in
      let resources =
        validate_resources-set_cleanup identity (cleanup_after (remove resource)) entry.resources
          (resources-validate_installation U entry valid) in
      let valid' =
        with_installation-valid j id entry
          (record entry {
            resources = set_cleanup identity (cleanup_after (remove resource)) entry.resources;
          })
          h there refl (validate_installation-resources U entry _ valid resources) in
      elim (Bool-cases (is_some (preservation j (some (id, index)) resource artifacts))) [
        | inl e ↦
            rw⁻¹ (ap (λ (p : Result (Unit {0}) × Journal). p.1) (ok-injective (simp (e) at k3))) h
        | inr e ↦
            rw⁻¹ (ap (λ (p : Result (Unit {0}) × Journal). p.1) (ok-injective (simp (e) at k3)))
              valid'
      ]

  -- A change that a removal makes of the journal.
  pub data Step : Journal → Journal → Type 0 where
    begun :
        (digest : Journal → Result Text) (plan : PlanView) (clean : Bool) (id : Text)
        (j j' : Journal)
        → Passes (validate_identities plan.deletable)
        → begin digest plan clean id j ≡ ok (tt, j')
        → Step j j'
    applied :
        (remove : Resource → Result (Unit {0})) (plan : PlanView) (identity : ResourceIdentity)
        (artifacts : Artifacts) (r : Result (Unit {0})) (j j' : Journal)
        → apply remove plan identity artifacts j ≡ ok (r, j')
        → Step j j'
    unregister : (id : Text) (j j' : Journal) → unregistered id j ≡ ok (tt, j') → Step j j'
    finished :
        (succeeded : Bool) (id : Text) (j j' : Journal)
        → finish succeeded id j ≡ ok (tt, j')
        → Step j j'

  pub data Steps (start : Journal) : Journal → Type 0 where
    here : Steps start start
    next : {j j' : Journal} → Steps start j → Step j j' → Steps start j'

  Step-valid :
      {j j' : Journal} → Step j j' → Passes (validate_journal U j) → Passes (validate_journal U j')
  Step-valid (begun digest plan clean id j j' listed k) h =
      begin-valid digest plan clean id j j' listed h k
  Step-valid (applied remove plan identity artifacts r j j' k) h =
      apply-valid remove plan identity artifacts j j' r h k
  Step-valid (unregister id j j' k) h = unregistered-valid id j j' h k
  Step-valid (finished succeeded id j j' k) h = finish-valid succeeded id j j' h k

  -- However the changes of removals follow each other, from a valid journal on every journal is
  -- valid, if the plans list valid identities: the check after each change never refuses it.
  pub Steps-validate_journal :
      {start j : Journal}
      → Passes (validate_journal U start)
      → Steps start j
      → Passes (validate_journal U j)
  Steps-validate_journal h here = h
  Steps-validate_journal h (next s k) = Step-valid k (Steps-validate_journal h s)
