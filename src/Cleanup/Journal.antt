-- ===== src/Cleanup/Journal.antt =====
-- cleanup/journal.rs: the changes of the journal around a removal. How a resource is removed is a
-- parameter here, as remove.rs works on the file system.
pub mod Applied
pub mod Valid
pub mod Steps
use ripmcp.Base.{
  ℕ, zero, suc, ◌+◌, Bool, true, false, Option, none, some, List, [], ◌∷◌, is_some, is_empty,
  String, if◌then◌else◌,
}
use ripmcp.Base.BTreeMap.{BTreeMap, get}
use ripmcp.Base.BTreeMap
use ripmcp.Base.Error.{Error, Result, ok, err, refuse, ok_or, is_ok, ◌>>=◌, ◌>>◌}
use ripmcp.Base.Order.{eqb, list_ord, nat_ord}
use ripmcp.Base.Text.{Text}
use ripmcp.Cleanup.Plan.{preservation}
use ripmcp.Cleanup.Remove.{changed}
use ripmcp.Ownership.Model.{
  InstallationId, ResourceIdentity, Resource, CleanupState, Installation, Registration,
  OperationKind, OperationState, Operation, Journal, Artifacts, same_identity,
}

-- What these functions read of a `Plan`, and the digest that it was made from.
pub record PlanView : Type 0 where
  pub installation : Option Text
  pub ownership_digest : Text
  pub deletable : List ResourceIdentity

abbrev pub operation_of : InstallationId → Bool → List ResourceIdentity → Operation
operation_of id clean resources = record {
  id = id;
  installation_id = id;
  kind = if clean then OperationKind.clean else OperationKind.unregister;
  state = OperationState.applying;
  resources = resources;
}

-- The change of `begin`. `digest` is the digest of the journal as serde_json writes it.
unfoldable pub begin :
    (Journal → Result Text) → PlanView → Bool → Text → Journal → Result (Unit {0} × Journal)
begin digest plan clean id journal = do
  current ← digest journal
  refuse (if eqb current plan.ownership_digest then false else true) changed
  entry ← ok_or (get id journal.installations) changed
  ok (
    tt,
    record journal {
      operations =
          BTreeMap.insert id (operation_of entry.id clean plan.deletable) journal.operations;
    },
  )

abbrev pub state_after : Bool → OperationState
state_after true = OperationState.committed
state_after false = OperationState.retry_required

-- The change of `finish`, by whether the report has no failures.
unfoldable pub finish : Bool → Text → Journal → Result (Unit {0} × Journal)
finish succeeded id journal = do
  entry ← ok_or (get id journal.operations) changed
  ok (
    tt,
    record journal {
      operations =
          BTreeMap.insert id (record entry { state = state_after succeeded }) journal.operations;
    },
  )

-- The change of `unregistered`.
unfoldable pub unregistered : Text → Journal → Result (Unit {0} × Journal)
unregistered id journal = do
  entry ← ok_or (get id journal.installations) changed
  ok (
    tt,
    record journal {
      installations =
          BTreeMap.insert id (record entry { registration = Registration.unregistered })
            journal.installations;
    },
  )

-- The position of the first resource with that identity, counted from the given one, and it.
unfoldable pub position : ResourceIdentity → ℕ → List Resource → Option (ℕ × Resource)
position identity i [] = none
position identity i (r ∷ rs) =
    let rest = position identity (i + 1) rs in
    if same_identity r.identity identity then some (i, r) else rest

abbrev pub cleanup_after : Result (Unit {0}) → CleanupState
cleanup_after (ok _) = CleanupState.removed
cleanup_after (err e) = CleanupState.retry_required

-- The first resource with that identity, with another state of its cleanup.
unfoldable pub set_cleanup : ResourceIdentity → CleanupState → List Resource → List Resource
set_cleanup identity state [] = []
set_cleanup identity state (r ∷ rs) =
    let rest = set_cleanup identity state rs in
    if same_identity r.identity identity then record r { cleanup = state } ∷ rs else r ∷ rest

abbrev pub with_resources : Text → Installation → List Resource → Journal → Journal
with_resources id entry resources journal = record journal {
  installations = BTreeMap.insert id (record entry { resources = resources }) journal.installations;
}

-- `apply`; the inner result is that of the removal.
unfoldable pub apply :
    (Resource → Result (Unit {0}))
    → PlanView
    → ResourceIdentity
    → Artifacts
    → Journal
    → Result (Result (Unit {0}) × Journal)
unfolding position set_cleanup
apply remove plan identity artifacts journal = do
  id ← ok_or plan.installation changed
  entry ← ok_or (get id journal.installations) changed
  (index, resource) ← ok_or (position identity 0 entry.resources) changed
  if is_some (preservation journal (some (id, index)) resource artifacts)
      then ok (err changed, journal)
      else ok (
        remove resource,
        with_resources id entry
            (set_cleanup identity (cleanup_after (remove resource)) entry.resources) journal,
      )
