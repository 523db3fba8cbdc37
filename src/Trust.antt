-- ===== src/Trust.antt =====
-- trust/mod.rs: which project configurations are approved, by root and digest.
pub mod Laws
use ripmcp.Base.{
  Bool, true, false, not, ◌&&◌, ◌||◌, Option, none, some, [], ◌∷◌, any, all, ◌==◌, is_some,
}
use ripmcp.Base.BTreeMap.{BTreeMap, get, insert}
use ripmcp.Base.Error.{Error, Result, new, configuration, ok, err, refuse, ◌>>=◌, ◌>>◌}
use ripmcp.Base.FilePath.{FilePath, is_absolute, is_parent_dir, starts_with, component_ord}
use ripmcp.Base.Order.{eqb, list_ord, nat_ord}
use ripmcp.Base.Text.{Text, len, is_ascii_hexdigit, is_ascii_uppercase}
use ripmcp.Config.Project.{Project}
use ripmcp.Storage.Exec.{Exec}
use ripmcp.Storage.Transaction.{Bytes, Disk, Outcomes, invalid, read_file, update_with_deadline}

abbrev pub Approvals : Type 0
Approvals = BTreeMap FilePath Text

abbrev pub corrupt : Error
corrupt = new configuration "trust state is corrupt or incompatible; approval was not accepted"

unfoldable pub bad_approval : FilePath → Text → Bool
bad_approval root digest =
    not (is_absolute root)
    || any is_parent_dir root
    || not (len digest == 64)
    || not (all (λ byte. is_ascii_hexdigit byte && not (is_ascii_uppercase byte)) digest)

-- `Approvals::validate`
unfoldable pub validate : Approvals → Result (Unit {0})
validate [] = ok tt
validate ((root, digest) ∷ approvals) = do
  refuse (bad_approval root digest) corrupt
  validate approvals

-- serde_json's reading and writing of the approvals, and the directory of the store.
pub record TrustStore : Type 0 where
  pub directory : FilePath
  pub from_slice : Bytes → Option Approvals
  pub to_vec_pretty : Approvals → Bytes

abbrev pub is_digest : Option Text → Text → Bool
is_digest none digest = false
is_digest (some approved) digest = eqb approved digest

abbrev pub or_error {ℓ} : {A : Type ℓ} → Option A → Error → Result A
or_error none e = err e
or_error (some a) e = ok a

module _ (S : TrustStore) where
  unfoldable pub require_external : Project → Result (Unit {0})
  require_external project = refuse (starts_with S.directory project.root) (
      new configuration
        "trust state must be outside the project; set XDG_STATE_HOME to an external private location")

  -- `is_approved`, on what the store's file holds.
  unfoldable pub is_approved : Project → Result (Option Bytes) → Result Bool
  unfolding validate require_external
  is_approved project read = do
    require_external project
    stored ← read
    elim stored [
      | none ↦ ok false
      | some bytes ↦ (do
        approvals ← or_error (S.from_slice bytes) corrupt
        validate approvals
        ok (is_digest (get project.root approvals) project.digest))
    ]

  -- What the store's file holds: nothing, where there is none.
  abbrev pub read_approvals : Option Bytes → Result Approvals
  read_approvals none = ok []
  read_approvals (some bytes) = or_error (S.from_slice bytes) invalid

  -- The change that `update_json_with_deadline` makes for `approve_with_deadline`.
  unfoldable pub approve_bytes : Project → Option Bytes → Result (Bytes × Unit {0})
  unfolding validate
  approve_bytes project previous = do
    approvals ← read_approvals previous
    validate approvals
    ok (S.to_vec_pretty (insert project.root project.digest approvals), tt)

  unfoldable pub approve_with_deadline : Outcomes → Project → Exec Disk (Unit {0})
  approve_with_deadline o project disk = elim (require_external project) [
    | err e ↦ (err e, disk)
    | ok _ ↦ update_with_deadline o (approve_bytes project) disk
  ]
