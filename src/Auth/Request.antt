-- ===== src/Auth/Request.antt =====
-- auth/provider.rs: the credential of a request, its refresh, and what a challenge does to it.
pub mod Spent
use ripmcp.Base.{
  ℕ, Bool, true, false, not, ◌&&◌, ◌||◌, Option, none, some, List, [], ◌∷◌, ◌++◌, is_some, is_none,
  String, if◌then◌else◌,
}
use ripmcp.Base.Error.{Error, ErrorKind, Result, new, ok, err, refuse, ok_or}
use ripmcp.Base.Order.{eqb, list_ord, nat_ord}
use ripmcp.Base.Text.{Text, codes}
use ripmcp.Config.Types.{OAuthClient}
use ripmcp.Auth.Model.{
  invalid, required, Credential, Saved, Profile, empty_saved, validate_credential, expired,
  check_credential,
}
use ripmcp.Auth.Provider.{Provider, Clears, saved_of, clear}
use ripmcp.Auth.Scopes.{scopes, union}
use ripmcp.Auth.Token.{or_scope, bearer}
use ripmcp.Auth.Vault.{Ring, Reads, Writes, read, write}
use ripmcp.Storage.Exec.{Exec, lift, pure, ◌>>=◌, ◌>>◌}

abbrev pub with_scope : Profile → Option Text → Profile
with_scope profile scope = record profile { scope = scope }

abbrev pub refresh_fields : Text → Text → Text → List (Text × Text)
refresh_fields refresh client_id resource =
    (codes "grant_type", codes "refresh_token")
    ∷ (codes "refresh_token", refresh)
    ∷ (codes "client_id", client_id)
    ∷ (codes "resource", resource)
    ∷ []

abbrev pub same_token : Option Text → Text → Bool
same_token none token = false
same_token (some other) token = eqb other token

-- What is kept of the previous credential.
abbrev pub renewed : Credential → Credential → Credential
renewed previous c = record c {
  endpoint = previous.endpoint;
  client_id = previous.client_id;
  scope = or_scope c.scope previous.scope;
}

-- The outcomes of the calls of `refresh`.
pub record Refreshes : Type 0 where
  pub clears : Clears
  pub random : Result Text
  pub writes : Writes

-- `refresh`, from the invalidation on.
unfoldable pub rotate : Provider → Refreshes → Credential → Profile → Text → Exec Ring Credential
rotate p o previous profile token = do
  c ← lift (
      p.exchange (with_scope profile previous.scope)
        (refresh_fields token previous.client_id profile.resource))
  lift (refuse (same_token c.refresh_token token) invalid)
  generation ← lift o.random
  write p.codec o.writes (saved_of generation (renewed previous c))
  pure (renewed previous c)

unfoldable pub refresh : Provider → Refreshes → Credential → Profile → Exec Ring Credential
unfolding rotate
refresh p o previous profile = do
  token ← lift (ok_or previous.refresh_token required)
  clear p o.clears
  rotate p o previous profile token

abbrev pub check_registered : Option OAuthClient → Credential → Result (Unit {0})
check_registered none c = ok tt
check_registered (some client) c = check_credential client c

-- The outcomes of the calls of `credential`.
pub record Requests : Type 0 where
  pub lock : Result (Unit {0})
  pub reads : Reads
  pub now : Result ℕ
  pub refreshes : Refreshes

unfoldable pub credential : Provider → Requests → Exec Ring Credential
unfolding refresh
credential p o = do
  lift o.lock
  found ← read p.codec p.endpoint o.reads
  s ← lift (ok_or found required)
  lift (refuse s.login_required required)
  c ← lift (ok_or s.credential required)
  profile ← lift p.discover
  lift (validate_credential c p.endpoint profile)
  lift (check_registered p.registration c)
  late ← lift (expired c o.now)
  if late then refresh p o.refreshes c profile else pure c

-- `authorization`: the header's text.
unfoldable pub authorization : Provider → Requests → Text → Exec Ring Text
unfolding credential
authorization p o resource = do
  lift (refuse (not (eqb resource p.endpoint)) invalid)
  c ← credential p o
  lift (refuse (not (bearer c.access_token)) invalid)
  pure (codes "Bearer " ++ c.access_token)

-- The outcomes of the calls of `challenged_with_authorization`.
pub record Challenged : Type 0 where
  -- the scope of the challenge in the headers
  pub challenge : Result (Option Text)
  pub lock : Result (Unit {0})
  pub reads : Reads
  pub random : Result Text
  pub writes : Writes

abbrev pub is_expected : Option Text → Text → Bool
is_expected none token = false
is_expected (some value) token = eqb value (codes "Bearer " ++ token)

abbrev pub pending_after : Option Text → Option Text → Result (Option Text)
pending_after pending none = ok pending
pending_after pending (some scope) = elim (scopes scope) [
  | ok _ ↦ union pending (some scope)
  | err e ↦ err e
]

-- `challenged_with_authorization`, which never succeeds.
unfoldable pub challenged : Provider → Challenged → Text → Option Text → Exec Ring (Unit {0})
challenged p o resource authorization = do
  lift (refuse (not (eqb resource p.endpoint)) invalid)
  scope ← lift o.challenge
  lift o.lock
  found ← read p.codec p.endpoint o.reads
  s ← lift (ok_or found required)
  c ← lift (ok_or s.credential required)
  lift (refuse (not (is_expected authorization c.access_token)) required)
  pending ← lift (pending_after s.pending_scope scope)
  generation ← lift o.random
  write p.codec o.writes
      (record s { pending_scope = pending; login_required = true; generation = generation })
  lift (err required)
