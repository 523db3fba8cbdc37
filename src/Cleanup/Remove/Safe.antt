-- ===== src/Cleanup/Remove/Safe.antt =====
-- cleanup/remove.rs: only the object that was installed disappears.
use ripmcp.Base.{
  ℕ, ◌≡◌, Bool, true, false, not, if◌then◌else◌, Option, none, some, ◌⊎◌, inl, inr, arith, refl,
  sym, ap, ◌∙◌, Bool-cases, is_some,
}
use ripmcp.Base.FilePath.{FilePath}
use ripmcp.Base.Error.{Error, Result, ok, err, refuse}
use ripmcp.Ownership.Model.{Filesystem, Resource, ResourceIdentity}
use ripmcp.Ownership.Validation.{Metadata, matches}
use ripmcp.Cleanup.Remove.{
  Parent, Calls, parent_of, rename_away, put_back, stage_moved, stage_from, stage,
  unlink_quarantine, both_missing, remove_in, remove_path, has_parent, named, remove_identity,
  remove, changed,
}
use ripmcp.Storage.Exec.{after, lift, continue, pure, ◌>>◌}

-- One of the names leads to the object, and the other nowhere.
abbrev pub IsAt : Option Metadata → Parent → Type 0
IsAt m p = (p ≡ parent_of m none) ⊎ (p ≡ parent_of none m)

module _ (o : Calls) (euid : ℕ) (proof : Filesystem) where
  abbrev IsStaged : Metadata → Result (Unit {0}) × Parent → Type 0
  IsStaged m (ok _, p) = (matches euid proof m ≡ true) × (p ≡ parent_of none (some m))
  IsStaged m (err e, p) = IsAt (some m) p

  stage_moved-IsStaged :
      (m : Metadata) → IsStaged m (stage_moved o euid proof (parent_of none (some m)))
  unfolding stage_moved put_back
  stage_moved-IsStaged m = ground arith

  -- After `stage`: the object that is to be removed is in quarantine and matches the proof.
  abbrev IsPrepared : Parent → Result (Unit {0}) × Parent → Type 0
  IsPrepared before (ok _, p) =
      (m : Metadata) × (matches euid proof m ≡ true)
      × (p ≡ parent_of none (some m))
      × ((before ≡ p) ⊎ ((before.quarantine ≡ none) × (o.others before.target ≡ some m)))
  IsPrepared before (err e, p) =
      (p ≡ before) ⊎ ((before.quarantine ≡ none) × IsAt (o.others before.target) p)

  IsPrepared-of_Staged :
      (t : Option Metadata) (m : Metadata) (q : Result (Unit {0}) × Parent)
      → o.others t ≡ some m
      → IsStaged m q
      → IsPrepared (parent_of t none) q
  IsPrepared-of_Staged t m (ok u, p) e (a, b) = (m, a, b, inr (refl, e))
  IsPrepared-of_Staged t m (err x, p) e h = inr (refl, rw e h)

  moved_lem :
      (t x : Option Metadata) (r : Result (Unit {0}))
      → o.others t ≡ x
      → o.rename ≡ r
      → IsPrepared (parent_of t none) (
          continue
            (rename_away o (parent_of x none)).0
            (λ _. stage_moved o euid proof)
            (rename_away o (parent_of x none)).1)
  unfolding rename_away stage_moved
  moved_lem t none r e k = inr (refl, rw e (inl refl))
  moved_lem t (some m) (ok u) e k = rw k (IsPrepared-of_Staged t m _ e (stage_moved-IsStaged m))
  moved_lem t (some m) (err y) e k = rw k (inr (refl, rw e (inl refl)))

  found_lem :
      (t : Option Metadata) (m : Metadata)
      → matches euid proof m ≡ true
      → IsPrepared (parent_of t (some m)) (refuse (is_some t) changed, parent_of t (some m))
  found_lem none m e = (m, e, refl, inl refl)
  found_lem (some x) m e = inl refl

  stage_from-IsPrepared :
      (t q : Option Metadata)
      → IsPrepared (parent_of t q) (stage_from o euid proof q (parent_of t q))
  unfolding stage_from
  stage_from-IsPrepared t (some m) =
      let found : matches euid proof m ≡ true → _ = found_lem t m in
      elim (Bool-cases (matches euid proof m)) [
        | inl e ↦ simp (e) (
            after (IsPrepared (parent_of t (some m))) o.stat_target _ _ (λ x _. inl refl)
              (λ u _. found e))
        | inr e ↦ simp (e) (inl refl)
      ]
  stage_from-IsPrepared t none = ground (arith, moved_lem t (o.others t) o.rename refl refl)

  stage-IsPrepared : (before : Parent) → IsPrepared before (stage o euid proof before)
  unfolding stage
  stage-IsPrepared before =
      after (IsPrepared before) o.stat_quarantine _ before (λ x _. inl refl)
        (λ u _. stage_from-IsPrepared before.target before.quarantine)

  -- An object that matches the proof was there, and both names lead nowhere now.
  pub IsGone : Parent → Parent → Type 0
  IsGone before p =
      (m : Metadata) × (matches euid proof m ≡ true)
      × (p ≡ parent_of none none)
      × ((before ≡ parent_of none (some m))
          ⊎ ((before.quarantine ≡ none) × (o.others before.target ≡ some m)))

  -- After `remove` with that proof.
  abbrev pub IsRemoved : Parent → Result (Unit {0}) × Parent → Type 0
  IsRemoved before (ok _, p) =
      ((p ≡ before) × ((before ≡ parent_of none none) ⊎ (o.open_parent ≡ ok false)))
      ⊎ IsGone before p
  IsRemoved before (err e, p) =
      (p ≡ before)
      ⊎ (((before.quarantine ≡ none) × IsAt (o.others before.target) p)
          ⊎ ((o.sync ≡ err e) × IsGone before p))

  gone_lem :
      (before p : Parent) (r : Result (Unit {0}))
      → o.sync ≡ r
      → IsPrepared before (ok tt, p)
      → IsRemoved before (r, parent_of p.target none)
  unfolding IsGone
  gone_lem before p (ok u) k (m, a, b, inl c) =
      inr (m, a, ap (λ (q : Parent). parent_of q.target none) b, inl (c ∙ b))
  gone_lem before p (ok u) k (m, a, b, inr c) =
      inr (m, a, ap (λ (q : Parent). parent_of q.target none) b, inr c)
  gone_lem before p (err e) k (m, a, b, inl c) =
      inr (inr (k, (m, a, ap (λ (q : Parent). parent_of q.target none) b, inl (c ∙ b))))
  gone_lem before p (err e) k (m, a, b, inr c) =
      inr (inr (k, (m, a, ap (λ (q : Parent). parent_of q.target none) b, inr c)))

  -- An error before the object is unlinked.
  kept_lem :
      (before p : Parent) (e : Error) → IsPrepared before (ok tt, p) → IsRemoved before (err e, p)
  kept_lem before p e (m, a, b, inl c) = inl (sym c)
  kept_lem before p e (m, a, b, inr (c, d)) = inr (inl (c, rw (d, b) (inr refl)))

  unlink-IsRemoved :
      (before p : Parent)
      → IsPrepared before (ok tt, p)
      → IsRemoved before (
          continue
            (unlink_quarantine o proof p).0
            (λ _. lift o.sync)
            (unlink_quarantine o proof p).1)
  unfolding unlink_quarantine
  unlink-IsRemoved before p h =
      let kept : (e : Error) → _ = λ e. kept_lem before p e h in
      let gone = gone_lem before p o.sync refl h in ground (arith, kept, gone)

  staged_then :
      (before : Parent) (q : Result (Unit {0}) × Parent)
      → IsPrepared before q
      → IsRemoved before (continue q.0 (λ _. unlink_quarantine o proof >> lift o.sync) q.1)
  staged_then before (ok u, p) h = unlink-IsRemoved before p h
  staged_then before (err e, p) (inl same) = inl same
  staged_then before (err e, p) (inr h) = inr (inl h)

  remove_in-IsRemoved :
      (path : Option FilePath) (before : Parent)
      → IsRemoved before (remove_in o euid path proof before)
  unfolding remove_in both_missing
  remove_in-IsRemoved path before =
      let staged = staged_then before (stage o euid proof before) (stage-IsPrepared before) in
      ground (arith, staged)

path_lem :
    (o : Calls) (euid : ℕ) (proof : Filesystem) (p : FilePath) (before : Parent)
    → IsRemoved o euid proof before (remove_path o euid p (some proof) before)
path_lem o euid proof p before =
    after (IsRemoved o euid proof before) (refuse (not (has_parent p)) changed) _ before
      (λ e _. inl refl)
      (λ u _. after (IsRemoved o euid proof before) o.open_parent _ before (λ e _. inl refl) opened)
  where
    opened :
        (there : Bool)
        → o.open_parent ≡ ok there
        → IsRemoved o euid proof before
            ((if there then remove_in o euid (named p) proof else pure tt) before)
    opened true k = remove_in-IsRemoved o euid proof (named p) before
    opened false k = inl (refl, inr k)

-- What a removal leaves of the two names, by the proof of the resource.
abbrev pub IsSafe : Calls → ℕ → Option Filesystem → Parent → Result (Unit {0}) × Parent → Type 0
IsSafe o euid none before q = q ≡ (err changed, before)
IsSafe o euid (some proof) before q = IsRemoved o euid proof before q

-- Whichever calls fail, and whatever others make of the resource's name before it is renamed: a
-- removal that succeeds found nothing, or removed an object that matches the proof, the one that
-- the name led to at the rename or that an earlier removal left in quarantine. One that fails
-- leaves every object under one of the two names, unless only the final sync failed. Without a
-- proof, nothing is touched.
pub remove-IsSafe :
    (o : Calls) (euid : ℕ) (r : Resource) (before : Parent)
    → IsSafe o euid r.filesystem before (remove o euid r before)
unfolding remove
remove-IsSafe o euid r before = removed r.identity r.filesystem
  where
    removed :
        (i : ResourceIdentity) (f : Option Filesystem)
        → IsSafe o euid f before (remove_identity o euid i f before)
    removed (ResourceIdentity.path p) none = refl
    removed (ResourceIdentity.runtime k i) none = refl
    removed (ResourceIdentity.path p) (some proof) = path_lem o euid proof p before
    removed (ResourceIdentity.runtime k i) (some proof) = inl refl
