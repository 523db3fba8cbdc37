-- ===== src/Supervisor/Manager.antt =====
-- supervisor/manager.rs and supervisor/manager/status.rs: the slots of local servers, what is
-- checked before a server is used, and what is said of its state. A client is known by what is
-- asked of it.
use ripmcp.Base.{Bool, true, false, not, Option, none, some, [], length, leb, String, if◌then◌else◌}
use ripmcp.Base.BTreeMap.{BTreeMap, contains_key}
use ripmcp.Base.BTreeMap
use ripmcp.Base.Error.{Error, ErrorKind, Result, new, configuration, ok, err, refuse, ◌>>=◌, ◌>>◌}
use ripmcp.Base.Order.{eqb, list_ord, nat_ord}
use ripmcp.Base.Text.{Text}
use ripmcp.Config.Effective.{Effective, Entry, identity, is_local, authorize, require_enabled}

pub record Client : Type 0 where
  pub is_closed : Bool
  pub has_abandoned : Bool

-- `State`; the revision is left out, and the time of the last answer is whether it is less than a
-- minute ago.
pub record State : Type 0 where
  pub client : Option Client
  pub configuration_digest : Text
  pub installation : Option Text
  pub observed : Option Bool
  pub failed : Bool

abbrev pub default_state : State
default_state = record {
  client = none;
  configuration_digest = [];
  installation = none;
  observed = none;
  failed = false;
}

-- What an action asks of the checks: `Stop` needs no authorization, some name a tool.
pub data Action : Type 0 where
  start stop tools : Action
  tool call : Text → Action

abbrev pub busy : Error
busy = new ErrorKind.connection "supervisor request queue is full"

abbrev pub remote : Error
remote = new ErrorKind.unsupported "remote servers have no local lifecycle"

abbrev pub named_tool : Action → Option Text
named_tool (tool name) = some name
named_tool (call name) = some name
named_tool _ = none

abbrev pub is_stop : Action → Bool
is_stop stop = true
is_stop _ = false

-- `effective`, of the configuration that was loaded.
unfoldable pub check_effective : Result Effective → Text → Action → Result Effective
check_effective loaded server action = do
  effective ← loaded
  found ← identity effective server
  refuse (not (is_local effective server)) remote
  if is_stop action
      then ok effective
      else authorize effective server >>= λ (entry : Entry).
          require_enabled entry (named_tool action) >> ok effective

-- `slot`: the slots afterwards.
unfoldable pub slot : Text → BTreeMap Text State → Result (BTreeMap Text State)
slot key slots =
    if contains_key key slots
    then ok slots
    else if leb 256 (length slots)
    then err busy
    else ok (BTreeMap.insert key default_state slots)

-- `stop`, after the client has shut down.
unfoldable pub stop_state : State → State
stop_state s = record s { client = none; installation = none; observed = none; failed = false }

-- The outcome of a try for the lock of an instance.
pub data TryLock : Type 0 where
  missing locked would_block failed : TryLock

-- What the files of an instance say: the record of a failure, and the lock.
pub record Instance : Type 0 where
  pub failure : Result Bool
  pub lock : Result TryLock

abbrev pub is_held : TryLock → Bool
is_held would_block = true
is_held failed = true
is_held _ = false

-- `require_clean`
unfoldable pub require_clean : Instance → Result (Unit {0})
require_clean i = do
  recorded ← i.failure
  refuse recorded
      (new ErrorKind.partial_failure "owned resource cleanup failed; recovery record retained")
  lock ← i.lock
  refuse (is_held lock)
      (new ErrorKind.partial_failure "owned process lease is still held; cleanup is incomplete")

abbrev pub unsafe_endpoint : Error
unsafe_endpoint = new configuration "unsafe supervisor endpoint"

abbrev pub of_lock : TryLock → Result (String × String)
of_lock missing = ok ("stopped", "unverified")
of_lock locked = ok ("stopped", "unknown")
of_lock would_block = ok ("unknown", "stale")
of_lock failed = err unsafe_endpoint

-- `inactive`; whether it is the record of a failure that is reported stands beside it.
unfoldable pub inactive : Instance → Result (Bool × (String × String))
inactive i = do
  recorded ← i.failure
  if recorded
      then ok (true, ("cleanup_required", "failed"))
      else i.lock >>= λ lock. of_lock lock >>= λ report. ok (false, report)

abbrev pub recent : Option Bool → Bool
recent none = false
recent (some b) = b

-- The health of a client that is open.
abbrev pub health : State → Client → Text → String
health s client digest =
    if not (eqb s.configuration_digest digest)
    then "stale"
    else if client.has_abandoned
    then "unknown"
    else if s.failed
    then "failed"
    else if recent s.observed
    then "healthy"
    else "stale"

abbrev pub failed_health : State → Text → String
failed_health s digest = if eqb s.configuration_digest digest then "failed" else "stale"

-- `describe` of a slot whose state could be looked at.
unfoldable pub describe_state : State → Text → Instance → Result (String × String)
unfolding inactive
describe_state s digest i = elim s.client [
  | some client ↦
      let closed = inactive i >>= λ (recorded, report).
      ok (if recorded then report else ("failed", failed_health s digest)) in
      if client.is_closed then closed else ok ("running", health s client digest)
  | none ↦ inactive i >>= λ (recorded, report).
      ok (if recorded then report else if s.failed then ("failed", "failed") else report)
]

-- `describe`; a state that is being used is none of the two.
unfoldable pub describe : Option (Option State) → Text → Instance → Result (String × String)
unfolding inactive describe_state
describe none digest i = inactive i >>= λ (recorded, report). ok report
describe (some none) digest i = ok ("busy", "unknown")
describe (some (some s)) digest i = describe_state s digest i
