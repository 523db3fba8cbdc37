-- ===== src/Cleanup/Plan/Resolve.antt =====
-- cleanup/plan.rs: the installation that a removal is about.
use ripmcp.Base.{
  Bool, true, false, not, ◌&&◌, ◌||◌, ◌≡◌, refl, ◌⊎◌, inl, inr, Option, none, some, List, [], ◌∷◌,
  any, filter, length, is_none, ltb, if◌then◌else◌, arith,
}
use ripmcp.Base.BTreeMap.{values}
use ripmcp.Base.Error.{Error, Result, new, configuration, ok, err}
use ripmcp.Base.FilePath.{component_ord}
use ripmcp.Base.Order.{eqb, list_ord, nat_ord}
use ripmcp.Base.Text.{Text}
use ripmcp.Config.Effective.{Source}
use ripmcp.Config.Same.{same_definition}
use ripmcp.Config.Types.{Server}
use ripmcp.Ownership.Model.{
  Registration, OperationKind, OperationState, Operation, Installation, Journal,
}

abbrev pub ambiguous : Error
ambiguous =
    new configuration
      "ambiguous retained installation records; preserve resources and inspect ownership.json before retrying"

abbrev pub same_source : Source → Source → Bool
same_source (Source.user a) (Source.user b) = eqb a b
same_source (Source.project a) (Source.project b) = eqb a b
same_source _ _ = false

abbrev pub is_registered : Registration → Bool
is_registered Registration.registered = true
is_registered Registration.unregistered = false

abbrev pub defines : Option Server → Server → Bool
defines none server = false
defines (some definition) server = same_definition definition.definition server.definition

-- The two filters, for the server that the configuration has, if it has one.
abbrev pub is_candidate : Source → Text → Option Server → Installation → Bool
is_candidate scope name none entry = same_source entry.scope scope && eqb entry.server name
is_candidate scope name (some server) entry =
    (same_source entry.scope scope && eqb entry.server name)
    && (is_registered entry.registration && defines entry.definition server)

abbrev pub is_clean : OperationKind → Bool
is_clean OperationKind.clean = true
is_clean _ = false

abbrev pub is_committed : OperationState → Bool
is_committed OperationState.committed = true
is_committed _ = false

unfoldable pub has_cleanup : Journal → Bool → Installation → Bool
has_cleanup journal pending entry =
    any
      (λ (operation : Operation).
        eqb operation.installation_id entry.id
        && is_clean operation.kind
        && (not pending || not (is_committed operation.state)))
      (values journal.operations)

abbrev pub only : List Installation → Option Installation
only (entry ∷ []) = some entry
only _ = none

abbrev pub choose : List Installation → Result (Option Installation)
choose [] = ok none
choose (entry ∷ []) = ok (some entry)
choose (entry ∷ other ∷ rest) = err ambiguous

abbrev pub first_of :
    Option Installation → Option Installation → List Installation → Result (Option Installation)
first_of (some entry) clean candidates = ok (some entry)
first_of none (some entry) candidates = ok (some entry)
first_of none none candidates = choose candidates

abbrev pub candidates : Journal → Source → Text → Option Server → List Installation
candidates journal scope name server =
    filter (is_candidate scope name server) (values journal.installations)

unfoldable pub resolve : Journal → Source → Text → Option Server → Result (Option Installation)
resolve journal scope name server =
    let found = candidates journal scope name server in
    if is_none server && ltb 1 (length found)
    then first_of (only (filter (has_cleanup journal true) found))
        (only (filter (has_cleanup journal false) found)) found
    else choose found

module _ (journal : Journal) (found : List Installation) where
  -- What is chosen among the candidates.
  abbrev pub IsChosen : Result (Option Installation) → Type 0
  IsChosen (ok none) = found ≡ []
  IsChosen (ok (some entry)) =
      (found ≡ entry ∷ [])
      ⊎ ((pending : Bool) × (filter (has_cleanup journal pending) found ≡ entry ∷ []))
  IsChosen (err e) = (e ≡ ambiguous) × (ltb 1 (length found) ≡ true)

  choose-IsChosen : (es : List Installation) → found ≡ es → IsChosen (choose es)
  choose-IsChosen [] h = h
  choose-IsChosen (entry ∷ []) h = inl h
  choose-IsChosen (entry ∷ other ∷ rest) h = (refl, rw h (ground arith))

  first_of-IsChosen :
      (ps cs : List Installation)
      → filter (has_cleanup journal true) found ≡ ps
      → filter (has_cleanup journal false) found ≡ cs
      → IsChosen (first_of (only ps) (only cs) found)
  first_of-IsChosen (p ∷ []) cs h k = inr (true, h)
  first_of-IsChosen [] (c ∷ []) h k = inr (false, k)
  first_of-IsChosen (p ∷ q ∷ ps) (c ∷ []) h k = inr (false, k)
  first_of-IsChosen [] [] h k = choose-IsChosen found refl
  first_of-IsChosen [] (c ∷ d ∷ cs) h k = choose-IsChosen found refl
  first_of-IsChosen (p ∷ q ∷ ps) [] h k = choose-IsChosen found refl
  first_of-IsChosen (p ∷ q ∷ ps) (c ∷ d ∷ cs) h k = choose-IsChosen found refl

-- The installation of a removal is never guessed: none is chosen only if there is no candidate; one
-- is chosen only if it is the only candidate, the only one with an unfinished removal of its data,
-- or the only one with any; and the error of ambiguity is only given for several candidates.
pub resolve-IsChosen :
    (journal : Journal) (scope : Source) (name : Text) (server : Option Server)
    → IsChosen journal (candidates journal scope name server) (resolve journal scope name server)
unfolding resolve
resolve-IsChosen journal scope name server =
    let found = candidates journal scope name server in
    ground (
      arith,
      choose-IsChosen journal found found refl,
      first_of-IsChosen journal found (filter (has_cleanup journal true) found)
          (filter (has_cleanup journal false) found) refl refl,
    )
