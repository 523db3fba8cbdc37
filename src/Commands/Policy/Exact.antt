-- ===== src/Commands/Policy/Exact.antt =====
-- tools/policy.rs: a policy changes exactly what it names.
use ripmcp.Base.{
  Bool, true, false, not, ◌≡◌, refl, sym, ap, ◌∙◌, Option, none, some, if◌then◌else◌, arith,
}
use ripmcp.Base.BTreeMap.{BTreeSet, get, get-insert, get-remove, contains_key}
use ripmcp.Base.BTreeMap
use ripmcp.Base.Error.{ok, ok_or, refuse, >>=-eq-ok, ok-injective, ok_or-eq-ok, refuse-eq-ok}
use ripmcp.Base.Order.{eqb, list_ord, nat_ord}
use ripmcp.Base.Text.{Text}
use ripmcp.Commands.Policy.{Policy, unknown_server, changed_target, set_policy, change_policy}
use ripmcp.Config.Same.{same_server}
use ripmcp.Config.Types.{Server, Configuration}

-- Only what is named differs: the server's own switch, or that of the one tool.
abbrev pub IsSwitched : Option Text → Bool → Server → Server → Type 0
IsSwitched none enabled before after' =
    (after'.enabled ≡ enabled)
    × (after'.disabled_tools ≡ before.disabled_tools)
    × (after'.definition ≡ before.definition)
IsSwitched (some name) enabled before after' =
    (after'.enabled ≡ before.enabled)
    × ((other : Text)
        → contains_key other after'.disabled_tools
          ≡ (if eqb other name then not enabled else contains_key other before.disabled_tools))
    × (after'.definition ≡ before.definition)

not-false : {b : Bool} → not b ≡ false → b ≡ true
not-false {b} h = ground arith

contains_key-remove :
    (other tool : Text) (set : BTreeSet Text)
    → contains_key other (BTreeMap.remove tool set)
      ≡ (if eqb other tool then false else contains_key other set)
contains_key-remove other tool set = ground (arith, get-remove other tool set)

contains_key-insert :
    (other tool : Text) (set : BTreeSet Text)
    → contains_key other (BTreeMap.insert tool tt set)
      ≡ (if eqb other tool then true else contains_key other set)
contains_key-insert other tool set = ground (arith, get-insert other tool tt set)

set_policy-IsSwitched :
    (tool : Option Text) (enabled : Bool) (server : Server)
    → IsSwitched tool enabled server (set_policy tool enabled server)
set_policy-IsSwitched none enabled server = (refl, refl, refl)
set_policy-IsSwitched (some tool) true server =
    (refl, λ other. contains_key-remove other tool server.disabled_tools, refl)
set_policy-IsSwitched (some tool) false server =
    (refl, λ other. contains_key-insert other tool server.disabled_tools, refl)

pub record IsChangedBy (policy : Policy) (enabled : Bool) (target : Server)
    (config config' : Configuration) : Type 0 where
  pub server : Server
  pub after' : Server
  pub found : get policy.server config.servers ≡ some server
  pub validated : same_server server target ≡ true
  pub switched : IsSwitched policy.tool enabled server after'
  pub stored :
      (name : Text)
      → get name config'.servers
        ≡ (if eqb name policy.server then some after' else get name config.servers)
  pub same_timeouts : config'.timeouts ≡ config.timeouts

-- A change of policy that succeeds found the very server that was validated, and switches only what
-- it names there: that server's own switch, or the one tool; every other server is as it was.
pub change_policy-IsChangedBy :
    (policy : Policy) (enabled : Bool) (target : Server) (config config' : Configuration)
    → change_policy policy enabled target config ≡ ok (tt, config')
    → IsChangedBy policy enabled target config config'
unfolding change_policy
change_policy-IsChangedBy policy enabled target config config' h =
    let (server, found, h1) =
      >>=-eq-ok (ok_or (get policy.server config.servers) unknown_server) _ h in
    let (u, same, h2) = >>=-eq-ok (refuse (not (same_server server target)) changed_target) _ h1 in
    let e = ap (λ (p : Unit {0} × Configuration). p.1) (ok-injective h2) in
    let servers = ap (λ (c : Configuration). c.servers) e in
    record {
      server = server;
      after' = set_policy policy.tool enabled server;
      found = ok_or-eq-ok _ _ found;
      validated = not-false (refuse-eq-ok _ _ same);
      switched = set_policy-IsSwitched policy.tool enabled server;
      stored = λ name.
          sym (ap (get name) servers)
          ∙ get-insert name policy.server (set_policy policy.tool enabled server) config.servers;
      same_timeouts = sym (ap (λ (c : Configuration). c.timeouts) e);
    }
