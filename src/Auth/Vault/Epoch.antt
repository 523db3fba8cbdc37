-- ===== src/Auth/Vault/Epoch.antt =====
-- auth/credentials.rs: only the record of the current epoch is ever read.
use mathlib.Core.Path.{subst}
use ripmcp.Base.{
  Bool, true, false, not, ◌||◌, ◌≡◌, refl, ap, ◌⊎◌, inl, inr, Option, none, some, length, ltb,
  Bool-cases,
}
use ripmcp.Base.Error.{Result, ok, err, ok_or, refuse, is_ok, ok_or-eq-ok}
use ripmcp.Base.Order.{eqb_iff, list_ord, nat_ord}
use ripmcp.Base.Text.{Text}
use ripmcp.Auth.Model.{Saved, invalid}
use ripmcp.Auth.Vault.{
  Ring, SavedCodec, Reads, Writes, body_limit, checked_saved, read_secret, raw, read, write, stale,
  same_bytes, perform, set_epoch, set_if, lands, current, check_epoch,
}
use ripmcp.Storage.Exec.{Exec, after, continue}
use ripmcp.Storage.Transaction.{Bytes}

module _ (codec : SavedCodec) where
  abbrev pub published : Bytes → Saved → Ring
  published bytes s = record { secret = some bytes; epoch = some s.generation }

  -- What a write leaves: the new record, the old ring, or one that is revoked.
  abbrev pub IsWritten : Writes → Saved → Ring → Result (Unit {0}) × Ring → Type 0
  IsWritten o s before (ok _, r) =
      (bytes : Bytes) × (codec.to_vec s ≡ some bytes) × (r ≡ published bytes s)
  IsWritten o s before (err e, r) =
      (r ≡ before)
      ⊎ (((fresh : Text) × (o.random ≡ ok fresh) × (r.epoch ≡ some fresh))
          ⊎ ((bytes : Bytes) × (codec.to_vec s ≡ some bytes) × (r ≡ published bytes s)))

  same_bytes-eq :
      (secret : Option Bytes) (bytes : Bytes) → same_bytes secret bytes ≡ true → secret ≡ some bytes
  same_bytes-eq none bytes h = cc
  same_bytes-eq (some stored) bytes h = ap some ((eqb_iff stored bytes).0 h)

  module _ (o : Writes) (s : Saved) (before : Ring) (bytes : Bytes) (fresh : Text)
      (h : codec.to_vec s ≡ some bytes) (k : o.random ≡ ok fresh) where
    abbrev ring : Option Bytes → Ring
    ring secret = record { secret = secret; epoch = some fresh }

    publish_lem :
        (r : Result (Unit {0})) (landed : Bool)
        → IsWritten o s before (
            perform
              (record { result = r; landed = landed })
              (λ r. record r { epoch = some s.generation })
              (ring (some bytes)))
    publish_lem (ok u) landed = (bytes, h, refl)
    publish_lem (err e) true = inr (inr (bytes, h, refl))
    publish_lem (err e) false = inr (inl (fresh, k, refl))

    compared_lem :
        (secret : Option Bytes)
        → IsWritten o s before (
            continue
              (refuse (not (same_bytes secret bytes)) invalid)
              (λ _. set_epoch o.publish s.generation)
              (ring secret))
    compared_lem secret = elim (Bool-cases (same_bytes secret bytes)) [
      | inl e ↦ rw (e, same_bytes-eq secret bytes e) (publish_lem o.publish.result o.publish.landed)
      | inr e ↦ rw e (inr (inl (fresh, k, refl)))
    ]

    back_lem :
        (secret : Option Bytes)
        → IsWritten o s before (
            continue o.read_back
              (λ _ r.
                continue
                  (refuse (not (same_bytes r.secret bytes)) invalid)
                  (λ _. set_epoch o.publish s.generation)
                  r)
              (ring secret))
    back_lem secret =
        after (IsWritten o s before) o.read_back _ (ring secret) (λ e _. inr (inl (fresh, k, refl)))
          (λ u _. compared_lem secret)

    abbrev from_back : Exec Ring (Unit {0})
    from_back r =
        continue o.read_back
          (λ _ r.
            continue (refuse (not (same_bytes r.secret bytes)) invalid)
              (λ _. set_epoch o.publish s.generation) r)
          r

    store_lem :
        (r : Result (Unit {0})) (landed : Bool) (secret : Option Bytes)
        → IsWritten o s before (
            continue r
              (λ _. from_back)
              (set_if (is_ok r || landed) (λ r. record r { secret = some bytes }) (ring secret)))
    store_lem (ok u) landed secret = back_lem (some bytes)
    store_lem (err e) true secret = inr (inl (fresh, k, refl))
    store_lem (err e) false secret = inr (inl (fresh, k, refl))

    revoke_lem :
        (r : Result (Unit {0})) (landed : Bool)
        → IsWritten o s before (
            continue r
              (λ _ r.
                continue o.store.result
                  (λ _. from_back)
                  (set_if (lands o.store) (λ r. record r { secret = some bytes }) r))
              (set_if (is_ok r || landed) (λ r. record r { epoch = some fresh }) before))
    revoke_lem (ok u) landed = store_lem o.store.result o.store.landed before.secret
    revoke_lem (err e) true = inr (inl (fresh, k, refl))
    revoke_lem (err e) false = inl refl

  -- A write that succeeds has published the new record: its bytes and, as the epoch, its
  -- generation. One that fails, at whichever step and whether or not its calls take effect all the
  -- same, leaves the ring as it was, or with the random text drawn for this write as its epoch, or
  -- with the whole new record published.
  pub write-IsWritten :
      (o : Writes) (s : Saved) (before : Ring) → IsWritten o s before (write codec o s before)
  unfolding write
  write-IsWritten o s before =
      after (IsWritten o s before) (ok_or (codec.to_vec s) invalid) _ before (λ e _. inl refl)
        (λ bytes h.
          after (IsWritten o s before) o.random _ before (λ e _. inl refl)
            (λ fresh k.
              revoke_lem o s before bytes fresh (ok_or-eq-ok _ _ h) k o.revoke.result
                o.revoke.landed))

  pub IsOfEpoch : Option Text → Option Saved → Type 0
  IsOfEpoch epoch none = Unit
  IsOfEpoch epoch (some s) = stale epoch s.generation ≡ false

  abbrev pub IsReading : Ring → Result (Option Saved) × Ring → Type 0
  IsReading r (ok s, r') = IsOfEpoch r.epoch s × (r' ≡ r)
  IsReading r (err e, r') = r' ≡ r

  current-IsOfEpoch : (epoch : Option Text) (s : Option Saved) → IsOfEpoch epoch (current epoch s)
  unfolding IsOfEpoch
  current-IsOfEpoch epoch none = tt
  current-IsOfEpoch epoch (some s) = elim (Bool-cases (stale epoch s.generation)) [
    | inl e ↦ rw e tt
    | inr e ↦ simp (e) refl
  ]

  check_epoch_lem :
      (o : Reads) (r : Ring) (found : Option Saved) → IsReading r (check_epoch o found r)
  check_epoch_lem o r none = (current-IsOfEpoch r.epoch none, refl)
  check_epoch_lem o r (some s) =
      after (IsReading r) o.epoch _ r (λ e _. refl)
        (λ u _. (current-IsOfEpoch r.epoch (some s), refl))

  checked_lem :
      (o : Reads) (r : Ring) (found : Result (Option Saved))
      → IsReading r (continue found (check_epoch o) r)
  checked_lem o r found = after (IsReading r) found _ r (λ e _. refl) (λ s _. check_epoch_lem o r s)

  raw_lem :
      (endpoint : Text) (o : Reads) (r : Ring) (result : Result (Unit {0}))
      → IsReading r (
          continue
            (continue result (λ _ s. (read_secret codec endpoint s.secret, s)) r).0
            (check_epoch o)
            (continue result (λ _ s. (read_secret codec endpoint s.secret, s)) r).1)
  raw_lem endpoint o r (ok u) = checked_lem o r (read_secret codec endpoint r.secret)
  raw_lem endpoint o r (err e) = refl

  -- A record that is read has the epoch as its generation, if there is an epoch; and reading
  -- changes nothing.
  pub read-IsReading :
      (endpoint : Text) (o : Reads) (r : Ring) → IsReading r (read codec endpoint o r)
  unfolding read raw
  read-IsReading endpoint o r = raw_lem endpoint o r o.store

  -- What is written is read again as it was.
  abbrev pub IsFaithful : Type 0
  IsFaithful =
      (s : Saved) (bytes : Bytes) → codec.to_vec s ≡ some bytes → codec.from_bytes bytes ≡ some s

  -- The round trip through the store: after a write that succeeded, a read whose calls succeed
  -- gives the record that was written, if the codec is faithful, the record is one of the version
  -- and of this endpoint, with a generation of 43 bytes, and its bytes are within the limit.
  pub read-write :
      (endpoint : Text) (o : Writes) (q : Reads) (s : Saved) (before after' : Ring)
      → IsFaithful
      → q.store ≡ ok tt
      → q.epoch ≡ ok tt
      → checked_saved endpoint s ≡ ok (some s)
      → ((bytes : Bytes) → codec.to_vec s ≡ some bytes → ltb body_limit (length bytes) ≡ false)
      → write codec o s before ≡ (ok tt, after')
      → read codec endpoint q after' ≡ (ok (some s), after')
  unfolding read raw read_secret
  read-write endpoint o q s before after' faithful qs qe sound small h =
      let written : IsWritten o s before (ok tt, after') =
        subst (IsWritten o s before) h (write-IsWritten o s before) in
      let (bytes, vec, ring) = written in
      rw
        (
          ring,
          qs,
          small bytes vec,
          faithful s bytes vec,
          sound,
          qe,
          (eqb_iff s.generation s.generation).1 refl,
        )
        refl
