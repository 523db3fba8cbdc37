-- ===== src/Tests/Gates.antt =====
-- The barrier, a change of policy and a header of challenges on concrete inputs.
use ripmcp.Mcp.Headers.{integer, argument_error}
use ripmcp.Supervisor.Manager.{State, default_state, Instance, TryLock, describe}
use ripmcp.Base.FilePath.{root_dir, normal}
use ripmcp.Base.BTreeMap.{get}
use ripmcp.Storage.Paths.{Location, directory, invalid}
use ripmcp.Base.{ℕ, Bool, true, false, ◌≡◌, ◌≤◌, refl, none, some, [], ◌∷◌, ◌==◌, inr, arith}
use ripmcp.Base.Error.{ok, err}
use ripmcp.Base.Text.{Text, codes}
use ripmcp.Auth.Challenge.{challenges}
use ripmcp.Auth.Challenge.Ends.{challenges-fuel}
use ripmcp.Commands.Policy.{Policy, change_policy}
use ripmcp.Commands.Policy.Exact.{IsChangedBy, change_policy-IsChangedBy}
use ripmcp.Config.Types.{Configuration, local, npx, Server}
use ripmcp.Supervisor.Barrier.{
  barrier, nobody, closer, initial, Steps, here, next, enter, entered, close, left, closed,
}
use ripmcp.Supervisor.Barrier.Closed.{Steps-inside, Steps-closing}

-- A request gets inside, the supervisor closes, the request leaves, and the close has the lock.
requested : Steps initial (barrier 0 1 nobody true)
requested = next (next (next here (enter 0 0 false)) (entered 0 0 nobody)) (close 0 1 nobody false)

ended : Steps initial (barrier 0 0 closer true)
ended = next (next requested (left 0 0 nobody true)) closed

Steps-inside_example : (barrier 0 0 closer true).inside ≡ 0
Steps-inside_example = Steps-inside {b = barrier 0 0 closer true} ended (inr refl)

Steps-closing_example :
    ((barrier 0 0 closer true).closing ≡ true)
    × ((barrier 0 0 closer true).inside ≤ (barrier 0 1 nobody true).inside)
Steps-closing_example =
    Steps-closing {b = barrier 0 1 nobody true} {b' = barrier 0 0 closer true} refl
      (next (next here (left 0 0 nobody true)) closed)

abbrev files : Server
files = record {
  enabled = true;
  disabled_tools = [];
  definition =
      local
        (record { runtime = npx; package_name = codes "files"; args = []; env = []; cwd = none });
}

abbrev before : Configuration
before = record { servers = (codes "files", files) ∷ []; timeouts = none }

abbrev after' : Configuration
after' = record {
  servers = (codes "files", record files { disabled_tools = (codes "rm", tt) ∷ [] }) ∷ [];
  timeouts = none;
}

abbrev disable_rm : Policy
disable_rm = record { server = codes "files"; tool = some (codes "rm"); project = false }

disabled : change_policy disable_rm false files before ≡ ok (tt, after')
unfolding change_policy ripmcp.Base.BTreeMap.get ripmcp.Config.Same.same_server
    ripmcp.Base.BTreeMap.insert
disabled = refl

change_policy-IsChangedBy_example : IsChangedBy disable_rm false files before after'
change_policy-IsChangedBy_example =
    change_policy-IsChangedBy disable_rm false files before after' disabled

abbrev is_space : ℕ → Bool
is_space c = c == 32

abbrev header : Text
header = codes "Bearer scope=\"a b\""

challenges-fuel_example : challenges is_space 19 header [] ≡ challenges is_space 40 header []
challenges-fuel_example = challenges-fuel is_space 19 40 header [] (omega arith) (omega arith)

-- Without the variable, the directory is below the home directory; a relative home is refused.
home_directory :
    directory ((codes "HOME", root_dir ∷ normal (codes "u") ∷ []) ∷ []) Location.config
    ≡ ok (root_dir ∷ normal (codes "u") ∷ normal (codes ".config") ∷ normal (codes "ripmcp") ∷ [])
unfolding directory get
home_directory = refl

relative_home :
    directory ((codes "HOME", normal (codes "u") ∷ []) ∷ []) Location.config ≡ err invalid
unfolding directory get
relative_home = refl

-- A client that answered lately with the configuration of now is healthy; after a change it is stale.
abbrev running : State
running = record default_state {
  client = some (record { is_closed = false; has_abandoned = false });
  configuration_digest = codes "d";
  observed = some true;
}

abbrev quiet : Instance
quiet = record { failure = ok false; lock = ok TryLock.missing }

is_healthy : describe (some (some running)) (codes "d") quiet ≡ ok ("running", "healthy")
unfolding describe
is_healthy = refl

is_stale : describe (some (some running)) (codes "e") quiet ≡ ok ("running", "stale")
unfolding describe
is_stale = refl

-- The numbers that a header may have.
whole_fraction : integer (codes "42.0") ≡ ok (codes "42")
unfolding integer
whole_fraction = refl

with_exponent : integer (codes "-9e3") ≡ ok (codes "-9000")
unfolding integer
with_exponent = refl

largest : integer (codes "9007199254740991") ≡ ok (codes "9007199254740991")
unfolding integer
largest = refl

too_large : integer (codes "9007199254740992") ≡ err argument_error
unfolding integer
too_large = refl

no_integer : integer (codes "42.00000000000000000001") ≡ err argument_error
unfolding integer
no_integer = refl
