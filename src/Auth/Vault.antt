-- ===== src/Auth/Vault.antt =====
-- auth/credentials.rs: the vault, a record in a secure store and an epoch in a file of its own, for
-- one endpoint. A call that fails may have taken effect all the same, or take it later.
pub mod Epoch
use ripmcp.Base.{
  ℕ, Bool, true, false, not, ◌&&◌, ◌||◌, Option, none, some, List, [], ◌∷◌, length, ltb, ◌==◌,
  if◌then◌else◌,
}
use ripmcp.Base.Error.{Error, Result, ok, err, refuse, ok_or, is_ok}
use ripmcp.Base.Order.{eqb, list_ord, nat_ord}
use ripmcp.Base.Text.{Text, len}
use ripmcp.Auth.Model.{invalid, Credential, Saved}
use ripmcp.Storage.Exec.{Exec, lift, pure, modify, get_state, ◌>>=◌, ◌>>◌}
use ripmcp.Storage.Transaction.{Bytes}

-- What is stored; the epoch as text.
pub record Ring : Type 0 where
  pub secret : Option Bytes
  pub epoch : Option Text

-- serde_json's writing of a record, and the reading of what it wrote.
pub record SavedCodec : Type 0 where
  pub to_vec : Saved → Option Bytes
  pub from_bytes : Bytes → Option Saved

-- The outcome of a call that changes something, and whether it takes effect though it fails.
pub record Call : Type 0 where
  pub result : Result (Unit {0})
  pub landed : Bool

abbrev pub lands : Call → Bool
lands c = is_ok c.result || c.landed

abbrev pub set_if : Bool → (Ring → Ring) → Ring → Ring
set_if true f r = f r
set_if false f r = r

abbrev pub perform : Call → (Ring → Ring) → Exec Ring (Unit {0})
perform c f r = (c.result, set_if (lands c) f r)

-- `set_epoch`
abbrev pub set_epoch : Call → Text → Exec Ring (Unit {0})
set_epoch c generation = perform c (λ r. record r { epoch = some generation })

abbrev pub body_limit : ℕ
body_limit = 262144

abbrev pub of_endpoint : Text → Option Credential → Bool
of_endpoint endpoint none = true
of_endpoint endpoint (some c) = eqb c.endpoint endpoint

-- The record in the store, with the checks of `raw`.
abbrev pub checked_saved : Text → Saved → Result (Option Saved)
checked_saved endpoint s =
    if not (s.schema_version == 1)
      || not (len s.generation == 43)
      || not (of_endpoint endpoint s.credential)
    then err invalid
    else ok (some s)

abbrev pub parsed : Option Saved → Text → Result (Option Saved)
parsed none endpoint = err invalid
parsed (some s) endpoint = checked_saved endpoint s

unfoldable pub read_secret : SavedCodec → Text → Option Bytes → Result (Option Saved)
read_secret codec endpoint none = ok none
read_secret codec endpoint (some bytes) =
    if ltb body_limit (length bytes) then err invalid else parsed (codec.from_bytes bytes) endpoint

-- The outcomes of the calls of `read`.
pub record Reads : Type 0 where
  pub store : Result (Unit {0})
  pub epoch : Result (Unit {0})

unfoldable pub raw : SavedCodec → Text → Reads → Exec Ring (Option Saved)
unfolding read_secret
raw codec endpoint o = do
  lift o.store
  ring ← get_state
  lift (read_secret codec endpoint ring.secret)

abbrev pub stale : Option Text → Text → Bool
stale none generation = false
stale (some epoch) generation = not (eqb epoch generation)

abbrev pub current : Option Text → Option Saved → Option Saved
current epoch none = none
current epoch (some s) = if stale epoch s.generation then none else some s

abbrev pub check_epoch : Reads → Option Saved → Exec Ring (Option Saved)
check_epoch o none = pure none
check_epoch o (some s) = lift o.epoch >> (get_state >>= λ ring. pure (current ring.epoch (some s)))

unfoldable pub read : SavedCodec → Text → Reads → Exec Ring (Option Saved)
unfolding raw
read codec endpoint o = raw codec endpoint o >>= check_epoch o

-- The outcomes of the calls of `write`.
pub record Writes : Type 0 where
  pub random : Result Text
  pub revoke : Call
  pub store : Call
  pub read_back : Result (Unit {0})
  pub publish : Call

abbrev pub same_bytes : Option Bytes → Bytes → Bool
same_bytes none bytes = false
same_bytes (some stored) bytes = eqb stored bytes

unfoldable pub write : SavedCodec → Writes → Saved → Exec Ring (Unit {0})
write codec o s = do
  bytes ← lift (ok_or (codec.to_vec s) invalid)
  fresh ← lift o.random
  set_epoch o.revoke fresh
  perform o.store (λ r. record r { secret = some bytes })
  lift o.read_back
  ring ← get_state
  lift (refuse (not (same_bytes ring.secret bytes)) invalid)
  set_epoch o.publish s.generation
