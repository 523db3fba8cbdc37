-- ===== src/Trust/Laws.antt =====
-- trust/mod.rs: what an approval changes.
use ripmcp.Base.{
  Bool, true, false, ◌≡◌, refl, ap, sym, ◌∙◌, Option, none, some, [], ◌∷◌, arith, if◌then◌else◌,
}
use ripmcp.Base.BTreeMap.{get, insert, get-insert, get-nil}
use ripmcp.Base.Error.{Error, Result, ok, ◌>>=◌, ◌>>◌, >>=-eq-ok, ok-injective}
use ripmcp.Base.FilePath.{FilePath, component_ord}
use ripmcp.Base.Order.{eqb, list_ord, nat_ord}
use ripmcp.Base.Text.{Text}
use ripmcp.Config.Project.{Project}
use ripmcp.Storage.Transaction.{Bytes}
use ripmcp.Trust.{
  Approvals, TrustStore, bad_approval, validate, require_external, is_approved, approve_bytes,
  read_approvals, is_digest, or_error,
}

validate-insert :
    (root : FilePath) (digest : Text) (approvals : Approvals)
    → bad_approval root digest ≡ false
    → validate approvals ≡ ok tt
    → validate (insert root digest approvals) ≡ ok tt
unfolding validate insert
validate-insert root digest [] good h = rw good
validate-insert root digest ((r, d) ∷ approvals) good h =
    ground (arith, validate-insert root digest approvals good)

or_error-eq-ok {ℓ} :
    {A : Type ℓ} (read : Option A) (e : Error) {a : A} → or_error read e ≡ ok a → read ≡ some a
or_error-eq-ok none e h = cc
or_error-eq-ok (some a) e h = ap some (ok-injective h)

module _ (S : TrustStore) (p q : Project) where
  is_digest_if :
      (b : Bool) (other : Option Text)
      → (require_external S q >>= λ _. ok (is_digest (if b then some p.digest else other) q.digest))
        ≡ (require_external S q
            >> ok (if b then eqb p.digest q.digest else is_digest other q.digest))
  is_digest_if true other = refl
  is_digest_if false other = refl

  -- What `is_approved` answers from approvals that are valid.
  is_approved_valid :
      (bytes : Bytes) (approvals : Approvals)
      → S.from_slice bytes ≡ some approvals
      → validate approvals ≡ ok tt
      → is_approved S q (ok (some bytes))
        ≡ (do require_external S q; ok (is_digest (get q.root approvals) q.digest))
  unfolding is_approved
  is_approved_valid bytes approvals e v = rw (e, or_error) (rw v)

  is_approved-insert :
      (approvals : Approvals)
      → S.from_slice (S.to_vec_pretty (insert p.root p.digest approvals))
        ≡ some (insert p.root p.digest approvals)
      → bad_approval p.root p.digest ≡ false
      → validate approvals ≡ ok tt
      → is_approved S q (ok (some (S.to_vec_pretty (insert p.root p.digest approvals)))) ≡ (do
        require_external S q
        ok (
            if eqb q.root p.root
            then eqb p.digest q.digest
            else is_digest (get q.root approvals) q.digest))
  is_approved-insert approvals lossless good v =
      is_approved_valid _ (insert p.root p.digest approvals) lossless
        (validate-insert p.root p.digest approvals good v)
      ∙ rw get-insert (is_digest_if (eqb q.root p.root) _)

  then_if :
      (m : Result (Unit {0})) (b : Bool) (x y : Bool)
      → (m >> ok (if b then x else y)) ≡ (if b then (m >> ok x) else (m >> ok y))
  then_if m true x y = refl
  then_if m false x y = refl

  -- What is written.
  approve_bytes-eq-ok :
      (previous : Option Bytes) (approvals : Approvals) {bytes : Bytes}
      → read_approvals S previous ≡ ok approvals
      → approve_bytes S p previous ≡ ok (bytes, tt)
      → (validate approvals ≡ ok tt) × (bytes ≡ S.to_vec_pretty (insert p.root p.digest approvals))
  unfolding approve_bytes
  approve_bytes-eq-ok previous approvals r h =
      let (a, e, k) = >>=-eq-ok (read_approvals S previous) _ h in
      let (_, v, k2) =
        >>=-eq-ok (validate a) (λ _. ok (S.to_vec_pretty (insert p.root p.digest a), tt)) k in
      rw (← ok-injective (sym e ∙ r)) (v, ap (λ c. c.0) (sym (ok-injective k2)))

  is_approved_previous :
      (previous : Option Bytes) (approvals : Approvals)
      → read_approvals S previous ≡ ok approvals
      → validate approvals ≡ ok tt
      → is_approved S q (ok previous)
        ≡ (require_external S q >> ok (is_digest (get q.root approvals) q.digest))
  unfolding is_approved
  is_approved_previous none approvals r v = rw (← ok-injective r) (rw (get-nil q.root) refl)
  is_approved_previous (some old) approvals r v =
      is_approved_valid old approvals (or_error-eq-ok (S.from_slice old) _ r) v

  -- With a project p whose root and digest are well formed, and a JSON codec that reads back the
  -- approvals to which p was added: once the change of `approve_with_deadline` for p succeeds on
  -- the stored bytes, `is_approved` for any project q that lies outside the trust directory
  -- answers, from the new bytes, whether q has the digest of p if q has the root of p, and
  -- otherwise what it answered from the old bytes.
  pub is_approved-approve_bytes :
      (previous : Option Bytes) (approvals : Approvals) {bytes : Bytes}
      → bad_approval p.root p.digest ≡ false
      → read_approvals S previous ≡ ok approvals
      → S.from_slice (S.to_vec_pretty (insert p.root p.digest approvals))
        ≡ some (insert p.root p.digest approvals)
      → approve_bytes S p previous ≡ ok (bytes, tt)
      → is_approved S q (ok (some bytes)) ≡ (
          if eqb q.root p.root
          then (require_external S q >> ok (eqb p.digest q.digest))
          else is_approved S q (ok previous))
  is_approved-approve_bytes previous approvals good r lossless h =
      let (v, written) = approve_bytes-eq-ok previous approvals r h in
      rw
        (
          written,
          is_approved_previous previous approvals r v,
          is_approved-insert approvals lossless good v,
        )
        (then_if (require_external S q) (eqb q.root p.root) _ _)
