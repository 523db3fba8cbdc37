-- ===== src/Auth/Provider.antt =====
-- auth/provider.rs: login, status, logout, the credential of a request and its refresh. Every
-- operation takes the vault's lock where it says so; between the locks of a login others may act.
pub mod Login
use ripmcp.Base.{
  ℕ, Bool, true, false, not, ◌&&◌, ◌||◌, Option, none, some, List, [], ◌∷◌, ◌++◌, is_some, is_none,
  String, if◌then◌else◌,
}
use ripmcp.Base.Error.{Error, ErrorKind, Result, new, ok, err, refuse, ok_or}
use ripmcp.Base.Order.{eqb, list_ord, nat_ord}
use ripmcp.Base.Text.{Text, codes}
use ripmcp.Config.Types.{OAuthClient}
use ripmcp.Auth.Model.{
  invalid, required, Credential, Saved, Profile, empty_saved, validate_credential, expired,
  check_credential,
}
use ripmcp.Auth.Scopes.{add_scope, add_scopes, scopes, union}
use ripmcp.Auth.Vault.{Ring, SavedCodec, Reads, Writes, raw, read, write}
use ripmcp.Storage.Exec.{Exec, lift, pure, modify, ◌>>=◌, ◌>>◌}

-- The provider: its endpoint, what it was registered with, and what the network answers.
pub record Provider : Type 0 where
  pub endpoint : Text
  pub registration : Option OAuthClient
  pub discover : Result Profile
  pub register : Profile → Option Credential → Result Text
  pub exchange : Profile → List (Text × Text) → Result Credential
  pub codec : SavedCodec

abbrev pub saved_of : Text → Credential → Saved
saved_of generation credential = record {
  schema_version = 1;
  generation = generation;
  credential = some credential;
  pending_scope = none;
  login_required = false;
}

abbrev pub registered_scopes : Option OAuthClient → Profile → Result Profile
registered_scopes none profile = ok profile
registered_scopes (some client) profile = add_scopes client profile

abbrev pub previous_scope : Option Credential → Profile → Result Profile
previous_scope none profile = ok profile
previous_scope (some c) profile =
    if eqb c.issuer profile.authorization.issuer && eqb c.resource profile.resource
    then add_scope profile c.scope
    else ok profile

abbrev pub or_empty : Option Saved → Text → Saved
or_empty none generation = empty_saved generation
or_empty (some s) generation = s

-- The outcomes of the calls of `begin`.
pub record Begins : Type 0 where
  pub lock : Result (Unit {0})
  pub reads : Reads
  pub random_empty : Result Text
  pub random : Result Text
  pub writes : Writes

unfoldable pub begin : Provider → Begins → Exec Ring Saved
begin p o = do
  lift o.lock
  found ← read p.codec p.endpoint o.reads
  other ← lift o.random_empty
  generation ← lift o.random
  write p.codec o.writes (record (or_empty found other) { generation = generation })
  pure (record (or_empty found other) { generation = generation })

abbrev pub is_other : Option Saved → Text → Bool
is_other none generation = true
is_other (some s) generation = not (eqb s.generation generation)

abbrev pub changed_during_login : Error
changed_during_login =
    new ErrorKind.authentication "credentials changed during login; start an explicit login again"

unfoldable pub require_generation : Provider → Reads → Text → Exec Ring (Unit {0})
require_generation p o generation = do
  found ← read p.codec p.endpoint o
  lift (refuse (is_other found generation) changed_during_login)

-- The outcomes of the calls of a login, and what others make of the ring while it waits.
pub record Logins : Type 0 where
  pub begins : Begins
  pub authorization_url : Profile → Text → Result Text
  pub recheck_open : Result (Unit {0})
  pub open_browser : Result (Unit {0})
  pub receive : Profile → Result Text
  pub recheck_code : Result (Unit {0})
  pub others : Ring → Ring
  pub lock : Result (Unit {0})
  pub reads : Reads
  pub verifier : Text
  pub redirect : Text
  pub recheck_write : Result (Unit {0})
  pub random : Result Text
  pub writes : Writes

abbrev pub code_fields : Logins → Text → Text → Profile → List (Text × Text)
code_fields o code client_id profile =
    (codes "grant_type", codes "authorization_code")
    ∷ (codes "code", code)
    ∷ (codes "code_verifier", o.verifier)
    ∷ (codes "redirect_uri", o.redirect)
    ∷ (codes "client_id", client_id)
    ∷ (codes "resource", profile.resource)
    ∷ []

-- `login_with`, from the lock on.
unfoldable pub finish_login :
    Provider → Logins → Saved → Profile → Text → Text → Exec Ring (Unit {0})
unfolding require_generation
finish_login p o s profile client_id code = do
  lift o.lock
  require_generation p o.reads s.generation
  credential ← lift (p.exchange profile (code_fields o code client_id profile))
  lift o.recheck_write
  generation ← lift o.random
  write p.codec o.writes
      (saved_of generation (record credential { endpoint = p.endpoint; client_id = client_id }))

unfoldable pub login_with : Provider → Logins → Exec Ring (Unit {0})
unfolding begin finish_login
login_with p o = do
  s ← begin p o.begins
  found ← lift p.discover
  with_registered ← lift (registered_scopes p.registration found)
  with_pending ← lift (add_scope with_registered s.pending_scope)
  profile ← lift (previous_scope s.credential with_pending)
  client_id ← lift (p.register profile s.credential)
  url ← lift (o.authorization_url profile client_id)
  lift o.recheck_open
  lift o.open_browser
  code ← lift (o.receive profile)
  lift o.recheck_code
  modify o.others
  finish_login p o s profile client_id code

abbrev pub state_of : Option Credential → Result ℕ → Result String
state_of none now = ok "signed_out"
state_of (some c) now = elim (expired c now) [
  | ok late ↦ ok (if late then "expired" else "saved")
  | err e ↦ err e
]

abbrev pub status_of : Option Saved → Result ℕ → Result String
status_of none now = ok "signed_out"
status_of (some s) now = if s.login_required then ok "login_required" else state_of s.credential now

unfoldable pub status : Provider → Result (Unit {0}) → Reads → Result ℕ → Exec Ring String
status p locked o now = do
  lift locked
  found ← read p.codec p.endpoint o
  lift (status_of found now)

-- The outcomes of a write of `Record::empty`.
pub record Clears : Type 0 where
  pub random : Result Text
  pub writes : Writes

unfoldable pub clear : Provider → Clears → Exec Ring (Unit {0})
clear p o = lift o.random >>= λ generation. write p.codec o.writes (empty_saved generation)

unfoldable pub logout : Provider → Result (Unit {0}) → Reads → Clears → Exec Ring (Unit {0})
unfolding clear
logout p locked o clears = do
  lift locked
  found ← raw p.codec p.endpoint o
  if is_some found then clear p clears else pure tt
