-- ===== src/Auth/Request/Spent.antt =====
-- auth/provider.rs: a refresh token is spent only after the credential that holds it was given up.
use ripmcp.Auth.Token.{or_scope}
use mathlib.Core.Option.{some-injective}
use ripmcp.Base.Order.{eqb_iff, list_ord, nat_ord}
use ripmcp.Base.{◌≡◌, refl, ◌⊎◌, inl, inr, Option, none, some, List, ◌≢◌, arith, [], ◌∷◌, false}
use ripmcp.Base.Error.{Error, Result, ok, err, ok_or, refuse, refuse-eq-ok, ok_or-eq-ok}
use ripmcp.Base.Text.{Text, codes}
use ripmcp.Auth.Model.{Credential, Saved, Profile, empty_saved, required, invalid}
use ripmcp.Auth.Provider.{Provider, saved_of, clear}
use ripmcp.Auth.Request.{
  Refreshes, renewed, rotate, refresh, with_scope, refresh_fields, same_token,
}
use ripmcp.Auth.Vault.{Ring, SavedCodec, write}
use ripmcp.Auth.Vault.Epoch.{published, IsWritten, write-IsWritten}
use ripmcp.Storage.Exec.{Exec, after, continue}
use ripmcp.Storage.Transaction.{Bytes}

-- The ring holds that record, under its own epoch.
pub IsPublished : SavedCodec → Saved → Ring → Type 0
IsPublished codec s r =
    (bytes : Bytes) × (codec.to_vec s ≡ some bytes) × (r ≡ published codec bytes s)

module _ (p : Provider) (o : Refreshes) where
  -- The epoch is one of the two random texts that the writes draw first.
  pub IsRevoked : Ring → Type 0
  IsRevoked r =
      (fresh : Text) × ((o.clears.writes.random ≡ ok fresh) ⊎ (o.writes.random ≡ ok fresh))
      × (r.epoch ≡ some fresh)

  pub IsEmptied : Ring → Type 0
  IsEmptied r =
      (generation : Text) × (o.clears.random ≡ ok generation)
      × IsPublished p.codec (empty_saved generation) r

  -- The credential has the tokens and the times of one that the network gave for the refresh token
  -- of the previous one, which is not given again, and the endpoint and the client of the previous
  -- one; the scope is the one that was given, if any.
  pub record IsRenewal (previous : Credential) (profile : Profile) (c : Credential) : Type 0 where
    pub token : Text
    pub given : Credential
    pub spent : previous.refresh_token ≡ some token
    pub exchanged :
        p.exchange
          (record profile { scope = previous.scope })
          ((codes "grant_type", codes "refresh_token")
            ∷ (codes "refresh_token", token)
            ∷ (codes "client_id", previous.client_id)
            ∷ (codes "resource", profile.resource)
            ∷ [])
        ≡ ok given
    pub rotated : given.refresh_token ≢ some token
    pub endpoint : c.endpoint ≡ previous.endpoint
    pub client_id : c.client_id ≡ previous.client_id
    pub resource : c.resource ≡ given.resource
    pub issuer : c.issuer ≡ given.issuer
    pub token_endpoint : c.token_endpoint ≡ given.token_endpoint
    pub access_token : c.access_token ≡ given.access_token
    pub refresh_token : c.refresh_token ≡ given.refresh_token
    pub expires_at : c.expires_at ≡ given.expires_at
    pub issued_at : c.issued_at ≡ given.issued_at
    pub scope :
        ((given.scope ≡ none) × (c.scope ≡ previous.scope))
        ⊎ ((given.scope ≢ none) × (c.scope ≡ given.scope))

  -- The ring holds that credential, with neither a pending scope nor a login required.
  pub IsRenewed : Credential → Ring → Type 0
  IsRenewed c r =
      (generation : Text) × (o.random ≡ ok generation)
      × IsPublished p.codec
          (record {
            schema_version = 1;
            generation = generation;
            credential = some c;
            pending_scope = none;
            login_required = false;
          })
          r

  abbrev pub IsRotated : Credential → Profile → Ring → Result Credential × Ring → Type 0
  IsRotated previous profile before (ok c, r) = IsRenewal previous profile c × IsRenewed c r
  IsRotated previous profile before (err e, r) =
      (r ≡ before)
      ⊎ (IsRevoked r
          ⊎ (IsEmptied r ⊎ ((c : Credential) × IsRenewal previous profile c × IsRenewed c r)))

  new_token :
      (given : Option Text) (token : Text) → same_token given token ≡ false → given ≢ some token
  new_token none token h e = cc
  new_token (some other) token h e = ground (arith, eqb_iff other token, some-injective other token)

  or_scope_lem :
      (given previous : Option Text)
      → ((given ≡ none) × (or_scope given previous ≡ previous))
        ⊎ ((given ≢ none) × (or_scope given previous ≡ given))
  or_scope_lem none previous = inl (refl, refl)
  or_scope_lem (some scope) previous = inr (λ e. cc, refl)

  renewed-IsRenewal :
      (previous : Credential) (profile : Profile) (token : Text) (c : Credential)
      → previous.refresh_token ≡ some token
      → p.exchange
          (with_scope profile previous.scope)
          (refresh_fields token previous.client_id profile.resource)
        ≡ ok c
      → same_token c.refresh_token token ≡ false
      → IsRenewal previous profile (renewed previous c)
  renewed-IsRenewal previous profile token c t e n = record {
    token = token;
    given = c;
    spent = t;
    exchanged = e;
    rotated = new_token c.refresh_token token n;
    endpoint = refl;
    client_id = refl;
    resource = refl;
    issuer = refl;
    token_endpoint = refl;
    access_token = refl;
    refresh_token = refl;
    expires_at = refl;
    issued_at = refl;
    scope = or_scope_lem c.scope previous.scope;
  }

  written_lem :
      (previous : Credential) (profile : Profile) (before r0 : Ring) (c : Credential)
      (generation : Text) (q : Result (Unit {0}) × Ring)
      → IsRenewal previous profile c
      → o.random ≡ ok generation
      → IsEmptied r0
      → IsWritten p.codec o.writes (saved_of generation c) r0 q
      → IsRotated previous profile before (continue q.0 (λ _ s. (ok c, s)) q.1)
  unfolding IsRenewed IsPublished IsRevoked
  written_lem previous profile before r0 c generation (ok u, r) n k h w = (n, (generation, k, w))
  written_lem previous profile before r0 c generation (err e, r) n k h (inl same) =
      inr (inr (inl (rw same h)))
  written_lem previous profile before r0 c generation (err e, r) n k h
        (inr (inl (fresh, f, epoch))) =
      inr (inl (fresh, inr f, epoch))
  written_lem previous profile before r0 c generation (err e, r) n k h (inr (inr w)) =
      inr (inr (inr (c, n, (generation, k, w))))

  rotate_lem :
      (previous : Credential) (profile : Profile) (token : Text) (before r0 : Ring)
      → previous.refresh_token ≡ some token
      → IsEmptied r0
      → IsRotated previous profile before (rotate p o previous profile token r0)
  unfolding rotate
  rotate_lem previous profile token before r0 t h =
      after (IsRotated previous profile before)
        (p.exchange (with_scope profile previous.scope)
          (refresh_fields token previous.client_id profile.resource))
        _ r0 (λ e _. inr (inr (inl h)))
        (λ c given.
          after (IsRotated previous profile before)
            (refuse (same_token c.refresh_token token) invalid) _ r0 (λ e _. inr (inr (inl h)))
            (λ u fresh.
              after (IsRotated previous profile before) o.random _ r0 (λ e _. inr (inr (inl h)))
                (λ generation k.
                  written_lem previous profile before r0 (renewed previous c) generation
                    (write p.codec o.writes (saved_of generation (renewed previous c)) r0)
                    (renewed-IsRenewal previous profile token c t given (refuse-eq-ok _ _ fresh)) k
                    h
                    (write-IsWritten p.codec o.writes (saved_of generation (renewed previous c))
                      r0))))

  cleared_lem :
      (previous : Credential) (profile : Profile) (token generation : Text) (before : Ring)
      (q : Result (Unit {0}) × Ring)
      → previous.refresh_token ≡ some token
      → o.clears.random ≡ ok generation
      → IsWritten p.codec o.clears.writes (empty_saved generation) before q
      → IsRotated previous profile before
          (continue q.0 (λ _. rotate p o previous profile token) q.1)
  unfolding IsEmptied IsPublished IsRevoked
  cleared_lem previous profile token generation before (ok u, r) t k w =
      rotate_lem previous profile token before r t (generation, k, w)
  cleared_lem previous profile token generation before (err e, r) t k (inl same) = inl same
  cleared_lem previous profile token generation before (err e, r) t k
        (inr (inl (fresh, f, epoch))) =
      inr (inl (fresh, inl f, epoch))
  cleared_lem previous profile token generation before (err e, r) t k (inr (inr w)) =
      inr (inr (inl (generation, k, w)))

  clear_lem :
      (previous : Credential) (profile : Profile) (token : Text) (before : Ring) (r : Result Text)
      → previous.refresh_token ≡ some token
      → o.clears.random ≡ r
      → IsRotated previous profile before (
          continue
            (continue r (λ g. write p.codec o.clears.writes (empty_saved g)) before).0
            (λ _. rotate p o previous profile token)
            (continue r (λ g. write p.codec o.clears.writes (empty_saved g)) before).1)
  clear_lem previous profile token before (ok g) t k =
      cleared_lem previous profile token g before
        (write p.codec o.clears.writes (empty_saved g) before) t k
        (write-IsWritten p.codec o.clears.writes (empty_saved g) before)
  clear_lem previous profile token before (err e) t k = inl refl

  stopped_lem :
      {A B : Type 0} (q : Result A × Ring) (f g : A → Exec Ring B) (e : Error)
      → q.0 ≡ err e
      → continue q.0 f q.1 ≡ continue q.0 g q.1
  stopped_lem (ok a, r) f g e h = cc
  stopped_lem (err x, r) f g e h = refl

  asked_lem :
      (exchange : Profile → List (Text × Text) → Result Credential) (previous : Credential)
      (profile : Profile) (before : Ring) (e : Error) (token : Option Text)
      → (clear p o.clears before).0 ≡ err e
      → continue
          (ok_or token required)
          (λ t s.
            continue
              (clear p o.clears s).0
              (λ _. rotate p o previous profile t)
              (clear p o.clears s).1)
          before
        ≡ continue
            (ok_or token required)
            (λ t s.
              continue
                (clear p o.clears s).0
                (λ _. rotate (record p { exchange = exchange }) o previous profile t)
                (clear p o.clears s).1)
            before
  asked_lem exchange previous profile before e none h = refl
  asked_lem exchange previous profile before e (some t) h =
      stopped_lem (clear p o.clears before) _ _ e h

  -- However a refresh ends, the ring is as it was, or has as its epoch the random text that one of
  -- its two writes draws first, or holds the empty record or a renewed credential, each under its
  -- own epoch; and one that succeeds has stored the credential that it returns. A renewed credential
  -- has the tokens and the times of one that the network gave in exchange for the previous refresh
  -- token, with another refresh token or none, and keeps the endpoint and the client; the scope is kept
  -- where none is given.
  pub refresh-IsRotated :
      (previous : Credential) (profile : Profile) (before : Ring)
      → IsRotated previous profile before (refresh p o previous profile before)
  unfolding refresh clear
  refresh-IsRotated previous profile before =
      after (IsRotated previous profile before) (ok_or previous.refresh_token required) _ before
        (λ e _. inl refl)
        (λ token t.
          clear_lem previous profile token before o.clears.random
            (ok_or-eq-ok previous.refresh_token required t) refl)

  -- Unless the invalidation of the record was stored, the network is not asked: the refresh is the
  -- same with every other exchange.
  pub refresh-exchange :
      (exchange : Profile → List (Text × Text) → Result Credential) (previous : Credential)
      (profile : Profile) (before : Ring) (e : Error)
      → (clear p o.clears before).0 ≡ err e
      → refresh p o previous profile before
        ≡ refresh (record p { exchange = exchange }) o previous profile before
  unfolding refresh clear
  refresh-exchange exchange previous profile before e h =
      asked_lem exchange previous profile before e previous.refresh_token h
