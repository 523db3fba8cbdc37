-- ===== src/Cleanup/Plan/Promises.antt =====
-- cleanup/plan.rs: what holds of a plan that was made.
use ripmcp.Base.{true, false, not, ◌&&◌, ◌≡◌, Option, [], is_none, if◌then◌else◌, ◌⊎◌}
use ripmcp.Base.BTreeMap.{get, contains_key}
use ripmcp.Base.Error.{ok}
use ripmcp.Base.Order.{list_ord, nat_ord}
use ripmcp.Base.Text.{Text}
use ripmcp.Config.Effective.{Source, Effective, or_default, parse_or_default}
use ripmcp.Config.Types.{Configuration}
use ripmcp.Cleanup.Plan.Build.{Request, Plan, Readings, validate_scope, scope, id_of}
use ripmcp.Cleanup.Plan.Resolve.{resolve}
use ripmcp.Storage.Transaction.{Bytes}
use ripmcp.Ownership.Model.{Installation, Journal}

module _ (w : Readings) (name : Text) (request : Request) (plan : Plan) where
  -- What a plan was made from, and what it keeps to.
  pub record IsGrounded : Type 0 where
    pub effective : Effective
    pub config : Configuration
    pub bytes : Option Bytes
    pub journal : Journal
    pub entry : Option Installation
    pub stored : w.store_bytes plan.scope ≡ ok bytes
    pub configured : parse_or_default w.parse bytes ≡ ok config
    pub digested : plan.configuration_digest ≡ w.digest (or_default bytes [])
    pub loaded : w.effective ≡ ok effective
    pub read : w.journal ≡ ok journal
    pub resolved : resolve journal plan.scope name (get name config.servers) ≡ ok entry
    pub placed : scope effective w.config_directory request.project ≡ ok plan.scope
    pub named : plan.installation ≡ id_of entry
    pub witnessed : w.journal_digest journal ≡ ok plan.ownership_digest
    pub trusted :
        (if contains_key name config.servers
          then validate_scope w.is_approved effective request.project
          else ok tt)
        ≡ ok tt
    pub known : (not (contains_key name config.servers) && is_none entry) ≡ false
    pub spared : (request.clean ≡ true) ⊎ (plan.deletable ≡ [])

-- The part of a plan that is made from the journal.
record IsListedFrom (w : Readings) (name : Text) (request : Request) (selected : Source)
    (bytes : Option Bytes) (config : Configuration) (plan : Plan) : Type 0 where
  journal : Journal
  entry : Option Installation
  read : w.journal ≡ ok journal
  resolved : resolve journal selected name (get name config.servers) ≡ ok entry
  same_scope : selected ≡ plan.scope
  digested : plan.configuration_digest ≡ w.digest (or_default bytes [])
  named : plan.installation ≡ id_of entry
  witnessed : w.journal_digest journal ≡ ok plan.ownership_digest
  known : (not (contains_key name config.servers) && is_none entry) ≡ false
  spared : (request.clean ≡ true) ⊎ (plan.deletable ≡ [])
