-- ===== src/Cleanup/Remove.antt =====
-- cleanup/remove.rs: the removal of one resource. Of the parent directory two names matter: that of
-- the resource and that of the quarantine; each call of the system has an outcome, and whoever else
-- writes the directory may act between the check of the object and its rename.
pub mod Safe
use ripmcp.Base.{
  ℕ, Bool, true, false, not, ◌&&◌, ◌||◌, Option, none, some, [], ◌∷◌, is_none, is_some, ◌==◌,
  if◌then◌else◌,
}
use ripmcp.Base.Error.{Error, ErrorKind, Result, new, configuration, ok, err, refuse, ok_or}
use ripmcp.Base.FilePath.{FilePath, Component, root_dir, normal}
use ripmcp.Cleanup.Plan.{file_name}
use ripmcp.Ownership.Model.{ResourceIdentity, Filesystem, Resource}
use ripmcp.Ownership.Validation.{Metadata, matches}
use ripmcp.Storage.Exec.{Exec, lift, pure, modify, get_state, ◌>>=◌, ◌>>◌}

abbrev pub changed : Error
changed =
    new configuration
      "cleanup target, filesystem identity or ownership changed; preserved resources, preview again before retrying"

-- The error of the system is not kept.
abbrev pub cause : Error
cause = new ErrorKind.partial_failure "filesystem cleanup failed"

abbrev pub not_empty : Error
not_empty =
    new ErrorKind.partial_failure
      "directory contains untracked or preserved entries; no recursive deletion performed"

-- What the two names of the parent directory lead to.
pub record Parent : Type 0 where
  pub target : Option Metadata
  pub quarantine : Option Metadata

-- The outcomes of the calls, in their order.
pub record Calls : Type 0 where
  -- whether there is a parent directory
  pub open_parent : Result Bool
  pub parent : Result Metadata
  pub find_target : Result (Unit {0})
  pub find_quarantine : Result (Unit {0})
  pub stat_quarantine : Result (Unit {0})
  pub stat_target : Result (Unit {0})
  pub rename : Result (Unit {0})
  pub stat_moved : Result (Unit {0})
  pub read_dir : Result (Unit {0})
  pub rename_back : Result (Unit {0})
  pub unlink : Result (Unit {0})
  pub sync : Result (Unit {0})
  -- what others make of the target before it is renamed
  pub others : Option Metadata → Option Metadata

abbrev pub parent_of : Option Metadata → Option Metadata → Parent
parent_of t q = record { target = t; quarantine = q }

-- `rename` with NOREPLACE: a missing source and a target that is there are errors.
abbrev pub rename_noreplace :
    Result (Unit {0}) → Option Metadata → Option Metadata → Result Metadata
rename_noreplace r none target = err cause
rename_noreplace r (some m) (some other) = err cause
rename_noreplace (ok _) (some m) none = ok m
rename_noreplace (err e) (some m) none = err e

unfoldable pub rename_away : Calls → Exec Parent (Unit {0})
rename_away o = do
  p ← get_state
  m ← lift (rename_noreplace o.rename p.target p.quarantine)
  modify (λ _. parent_of none (some m))

-- `rename(quarantine, target)?` and the error that follows.
unfoldable pub put_back : Calls → Error → Exec Parent (Unit {0})
put_back o e = do
  p ← get_state
  m ← lift (rename_noreplace o.rename_back p.quarantine p.target)
  modify (λ _. parent_of (some m) none)
  lift (err e)

-- `stage` from the rename on.
unfoldable pub stage_moved : Calls → ℕ → Filesystem → Exec Parent (Unit {0})
unfolding put_back
stage_moved o euid proof = do
  lift o.stat_moved
  p ← get_state
  moved ← lift (ok_or p.quarantine changed)
  if not (matches euid proof moved)
      then put_back o changed
      else if proof.directory
      then lift o.read_dir >> (if moved.empty then pure tt else put_back o not_empty)
      else pure tt

-- `stage`, by what stands in the quarantine.
unfoldable pub stage_from : Calls → ℕ → Filesystem → Option Metadata → Exec Parent (Unit {0})
unfolding rename_away stage_moved
stage_from o euid proof (some metadata) =
    if matches euid proof metadata
    then lift o.stat_target >> (get_state >>= λ p. lift (refuse (is_some p.target) changed))
    else lift (err changed)
stage_from o euid proof none = do
  lift o.stat_target
  p ← get_state
  metadata ← lift (ok_or p.target changed)
  lift (refuse (not (matches euid proof metadata)) changed)
  modify (λ p. parent_of (o.others p.target) p.quarantine)
  rename_away o
  stage_moved o euid proof

unfoldable pub stage : Calls → ℕ → Filesystem → Exec Parent (Unit {0})
unfolding stage_from
stage o euid proof = do lift o.stat_quarantine; p ← get_state; stage_from o euid proof p.quarantine

-- `remove_dir` or `remove_file` of the quarantine.
unfoldable pub unlink_quarantine : Calls → Filesystem → Exec Parent (Unit {0})
unlink_quarantine o proof = do
  p ← get_state
  m ← lift (ok_or p.quarantine cause)
  lift (refuse (if proof.directory then not m.is_dir || not m.empty else m.is_dir) cause)
  lift o.unlink
  modify (λ p. parent_of p.target none)

-- Whether neither name leads anywhere; the second is looked at only if the first does not.
unfoldable pub both_missing : Calls → Exec Parent Bool
both_missing o = do
  lift o.find_target
  p ← get_state
  if is_some p.target then pure false else lift o.find_quarantine >> pure (is_none p.quarantine)

-- `remove` in a parent directory that is there.
unfoldable pub remove_in : Calls → ℕ → Option FilePath → Filesystem → Exec Parent (Unit {0})
unfolding both_missing stage unlink_quarantine
remove_in o euid path proof = do
  metadata ← lift o.parent
  lift (
      refuse (not (metadata.dev == proof.parent_device && metadata.ino == proof.parent_inode))
        changed)
  lift (ok_or path changed)
  missing ← both_missing o
  if missing then pure tt else stage o euid proof >> (unlink_quarantine o proof >> lift o.sync)

-- Whether `Path::parent` gives a path.
abbrev pub has_parent : FilePath → Bool
has_parent [] = false
has_parent (root_dir ∷ []) = false
has_parent _ = true

abbrev pub named : FilePath → Option FilePath
named p = elim (file_name p) [ none ↦ none | some _ ↦ some p ]

abbrev pub remove_path : Calls → ℕ → FilePath → Option Filesystem → Exec Parent (Unit {0})
remove_path o euid p none = lift (err changed)
remove_path o euid p (some proof) = do
  lift (refuse (not (has_parent p)) changed)
  there ← lift o.open_parent
  if there then remove_in o euid (named p) proof else pure tt

abbrev pub remove_identity :
    Calls → ℕ → ResourceIdentity → Option Filesystem → Exec Parent (Unit {0})
remove_identity o euid (ResourceIdentity.path p) proof = remove_path o euid p proof
remove_identity o euid (ResourceIdentity.runtime k i) proof = lift (err changed)

-- `remove`
unfoldable pub remove : Calls → ℕ → Resource → Exec Parent (Unit {0})
unfolding remove_in
remove o euid r = remove_identity o euid r.identity r.filesystem
