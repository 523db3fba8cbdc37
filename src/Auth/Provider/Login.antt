-- ===== src/Auth/Provider/Login.antt =====
-- auth/provider.rs: a login overwrites no credential that changed while it waited.
use ripmcp.Base.{◌≡◌, refl, ◌⊎◌, inl, inr, Option, none, some, true, Bool-cases}
use ripmcp.Base.Error.{Result, ok, err, refuse}
use ripmcp.Base.Order.{eqb, list_ord, nat_ord}
use ripmcp.Base.Text.{Text}
use ripmcp.Auth.Model.{Credential, Saved, Profile}
use ripmcp.Auth.Provider.{
  Provider, Logins, saved_of, code_fields, is_other, changed_during_login, require_generation,
  finish_login,
}
use ripmcp.Auth.Vault.{Ring, read, write}
use ripmcp.Auth.Vault.Epoch.{published, IsWritten, write-IsWritten, IsReading, read-IsReading}
use ripmcp.Storage.Exec.{Exec, after, continue}
use ripmcp.Storage.Transaction.{Bytes}

module _ (p : Provider) (o : Logins) (s : Saved) (profile : Profile) (client_id code : Text) where
  abbrev bound : Credential → Credential
  bound c = record c { endpoint = p.endpoint; client_id = client_id }

  -- The ring still had the record that the login began with, and the server gave that credential.
  pub record IsEntitled (before : Ring) (c : Credential) (generation : Text) : Type 0 where
    pub found : Saved
    pub was : (read p.codec p.endpoint o.reads before).0 ≡ ok (some found)
    pub same : eqb found.generation s.generation ≡ true
    pub given : p.exchange profile (code_fields o code client_id profile) ≡ ok c
    pub fresh : o.random ≡ ok generation

  pub IsStored : Credential → Text → Ring → Type 0
  IsStored c generation r =
      (bytes : Bytes) × (p.codec.to_vec (saved_of generation (bound c)) ≡ some bytes)
      × (r ≡ published p.codec bytes (saved_of generation (bound c)))

  abbrev pub IsFinished : Ring → Result (Unit {0}) × Ring → Type 0
  IsFinished before (ok _, r) =
      (c : Credential) × (generation : Text) × IsEntitled before c generation
      × IsStored c generation r
  IsFinished before (err e, r) =
      (r ≡ before)
      ⊎ ((c : Credential) × (generation : Text) × IsEntitled before c generation
          × (((revoked : Text) × (o.writes.random ≡ ok revoked) × (r.epoch ≡ some revoked))
              ⊎ IsStored c generation r))

  stored_lem :
      (before : Ring) (c : Credential) (generation : Text) (q : Result (Unit {0}) × Ring)
      → IsEntitled before c generation
      → IsWritten p.codec o.writes (saved_of generation (bound c)) before q
      → IsFinished before q
  unfolding IsStored
  stored_lem before c generation (ok u, r) h w = (c, generation, h, w)
  stored_lem before c generation (err e, r) h (inl same) = inl same
  stored_lem before c generation (err e, r) h (inr w) = inr (c, generation, h, w)

  abbrev after_check : Exec Ring (Unit {0})
  after_check r =
      continue (p.exchange profile (code_fields o code client_id profile))
        (λ c r.
          continue o.recheck_write
            (λ _ r.
              continue o.random
                (λ generation. write p.codec o.writes (saved_of generation (bound c))) r)
            r)
        r

  after_check_lem :
      (before : Ring) (found : Saved)
      → (read p.codec p.endpoint o.reads before).0 ≡ ok (some found)
      → eqb found.generation s.generation ≡ true
      → IsFinished before (after_check before)
  after_check_lem before found was same =
      after (IsFinished before) (p.exchange profile (code_fields o code client_id profile)) _ before
        (λ e _. inl refl)
        (λ c given.
          after (IsFinished before) o.recheck_write _ before (λ e _. inl refl)
            (λ u _.
              after (IsFinished before) o.random _ before (λ e _. inl refl)
                (λ generation fresh.
                  stored_lem before c generation
                    (write p.codec o.writes (saved_of generation (bound c)) before)
                    (record { found = found; was = was; same = same; given = given; fresh = fresh })
                    (write-IsWritten p.codec o.writes (saved_of generation (bound c)) before))))

  found_lem :
      (before : Ring) (found : Option Saved)
      → (read p.codec p.endpoint o.reads before).0 ≡ ok found
      → IsFinished before (
          continue
            (refuse (is_other found s.generation) changed_during_login)
            (λ _. after_check)
            before)
  found_lem before none was = inl refl
  found_lem before (some found) was = elim (Bool-cases (eqb found.generation s.generation)) [
    | inl same ↦ simp (same) (after_check_lem before found was same)
    | inr other ↦ simp (other) (inl refl)
  ]

  read_lem :
      (before : Ring) (q : Result (Option Saved) × Ring)
      → (read p.codec p.endpoint o.reads before).0 ≡ q.0
      → IsReading p.codec before q
      → IsFinished before (
          continue
            (continue q.0
              (λ found r. (refuse (is_other found s.generation) changed_during_login, r))
              q.1).0
            (λ _. after_check)
            (continue q.0
              (λ found r. (refuse (is_other found s.generation) changed_during_login, r))
              q.1).1)
  read_lem before (ok found, r) was (h, same) = rw same (found_lem before found was)
  read_lem before (err e, r) was same = inl same

  -- A login finishes only if the record of the epoch has the generation that the login began with:
  -- it then stores the credential that the server gave for the code, bound to this endpoint and
  -- client. Otherwise, and when anything before the write fails, the ring is left as it is; a write
  -- that fails leaves it as it is, with the random text drawn for the write as its epoch, or with
  -- the new credential.
  pub finish_login-IsFinished :
      (before : Ring) → IsFinished before (finish_login p o s profile client_id code before)
  unfolding finish_login require_generation
  finish_login-IsFinished before =
      after (IsFinished before) o.lock _ before (λ e _. inl refl)
        (λ u _.
          read_lem before (read p.codec p.endpoint o.reads before) refl
            (read-IsReading p.codec p.endpoint o.reads before))
