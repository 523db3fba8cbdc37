-- ===== src/Cleanup/Journal/Valid.antt =====
-- cleanup/journal.rs: the changes keep a journal valid.
use ripmcp.Base.{true, ◌≡◌, some, List, [], ◌∷◌, arith}
use ripmcp.Base.BTreeMap.{BTreeMap, get, contains_key, get-insert}
use ripmcp.Base.BTreeMap
use ripmcp.Base.Error.{Result, ok}
use ripmcp.Base.Order.{eqb, eqb_iff, list_ord, nat_ord}
use ripmcp.Base.Text.{Text}
use ripmcp.Config.Url.{UrlCrate}
use ripmcp.Cleanup.Journal.{set_cleanup}
use ripmcp.Ownership.Model.{
  ResourceIdentity, Resource, CleanupState, Registration, Installation, Operation,
}
use ripmcp.Ownership.Validation.{
  validate_identities, validate_resources, validate_installation, validate_installations,
  validate_operations,
}

-- A check that is passed.
abbrev pub Passes : Result (Unit {0}) → Type 0
Passes r = r ≡ ok tt

pub validate_resources-set_cleanup :
    (identity : ResourceIdentity) (state : CleanupState) (rs : List Resource)
    → Passes (validate_resources rs)
    → Passes (validate_resources (set_cleanup identity state rs))
unfolding validate_resources set_cleanup
validate_resources-set_cleanup identity state [] h = h
validate_resources-set_cleanup identity state (r ∷ rs) h =
    ground (arith, validate_resources-set_cleanup identity state rs)

module _ (U : UrlCrate) where
  pub validate_installation-resources :
      (entry : Installation) (rs : List Resource)
      → Passes (validate_installation U entry)
      → Passes (validate_resources rs)
      → Passes (validate_installation U (record entry { resources = rs }))
  unfolding validate_installation
  validate_installation-resources entry rs h k = ground arith

  pub validate_installation-registration :
      (entry : Installation) (registration : Registration)
      → Passes (validate_installation U entry)
      → Passes (validate_installation U (record entry { registration = registration }))
  unfolding validate_installation
  validate_installation-registration entry registration h = ground arith

  pub resources-validate_installation :
      (entry : Installation)
      → Passes (validate_installation U entry)
      → Passes (validate_resources entry.resources)
  unfolding validate_installation
  resources-validate_installation entry h = ground arith

  pub validate_installations-get :
      (id : Text) (entry : Installation) (m : BTreeMap Text Installation)
      → Passes (validate_installations U m)
      → get id m ≡ some entry
      → (eqb id entry.id ≡ true) × Passes (validate_installation U entry)
  unfolding validate_installations get
  validate_installations-get id entry [] h k = cc
  validate_installations-get id entry ((key, i) ∷ m) h k =
      ground (arith, eqb_iff id key, validate_installations-get id entry m)

  pub validate_installations-insert :
      (id : Text) (entry : Installation) (m : BTreeMap Text Installation)
      → eqb id entry.id ≡ true
      → Passes (validate_installation U entry)
      → Passes (validate_installations U m)
      → Passes (validate_installations U (BTreeMap.insert id entry m))
  unfolding validate_installations BTreeMap.insert
  validate_installations-insert id entry [] e h k = ground arith
  validate_installations-insert id entry ((key, i) ∷ m) e h k =
      ground (arith, validate_installations-insert id entry m)

  pub validate_operations-more :
      (m n : BTreeMap Text Installation) (ops : BTreeMap Text Operation)
      → ((key : Text) → contains_key key m ≡ true → contains_key key n ≡ true)
      → Passes (validate_operations U m ops)
      → Passes (validate_operations U n ops)
  unfolding validate_operations
  validate_operations-more m n [] f h = h
  validate_operations-more m n ((key, o) ∷ ops) f h =
      ground (arith, f o.installation_id, validate_operations-more m n ops f)

  pub validate_operations-insert :
      (m : BTreeMap Text Installation) (id : Text) (op : Operation) (ops : BTreeMap Text Operation)
      → Passes (validate_identities op.resources)
      → eqb id op.id ≡ true
      → contains_key op.installation_id m ≡ true
      → Passes (validate_operations U m ops)
      → Passes (validate_operations U m (BTreeMap.insert id op ops))
  unfolding validate_operations BTreeMap.insert
  validate_operations-insert m id op [] h e c k = ground arith
  validate_operations-insert m id op ((key, o) ∷ ops) h e c k =
      ground (arith, validate_operations-insert m id op ops)

  pub validate_operations-get :
      (m : BTreeMap Text Installation) (id : Text) (op : Operation) (ops : BTreeMap Text Operation)
      → Passes (validate_operations U m ops)
      → get id ops ≡ some op
      → Passes (validate_identities op.resources)
        × (eqb id op.id ≡ true)
        × (contains_key op.installation_id m ≡ true)
  unfolding validate_operations get
  validate_operations-get m id op [] h k = cc
  validate_operations-get m id op ((key, o) ∷ ops) h k =
      ground (arith, eqb_iff id key, validate_operations-get m id op ops)
