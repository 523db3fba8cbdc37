-- ===== src/Tests/Commands.antt =====
-- tools/mod.rs on one server and its answer.
use ripmcp.Base.{◌≡◌, refl, true, false, none, [], ◌∷◌, Option, some}
use ripmcp.Base.Error.{Result, ok}
use ripmcp.Base.FilePath.{root_dir, component_ord}
use ripmcp.Base.Order.{list_ord, nat_ord}
use ripmcp.Base.BTreeMap.{get}
use ripmcp.Base.Text.{Text, codes}
use ripmcp.Commands.{append, complete, identities, ask_servers, discover, candidates, resolve}
use ripmcp.Commands.Unique.{IsUnique, resolve-IsUnique}
use ripmcp.Commands.Input.{Call, Request, inline, into_request, read_input, pop}
use ripmcp.Commands.Input.Positions.{IsPlaced, into_request-IsPlaced}
use ripmcp.Config.Effective.{Effective, Source, default_timeouts, identity, reports}
use ripmcp.Config.Types.{local, npx}
use ripmcp.Json.{Value, Items, Fields, index}

abbrev clock_only : Effective
clock_only = record {
  entries =
      (
        codes "clock",
        record {
          identity = record {
            source = Source.user (root_dir ∷ []);
            name = codes "clock";
            configuration_digest = [];
          };
          server = record {
            enabled = true;
            disabled_tools = [];
            definition = local (record {
              runtime = npx;
              package_name = codes "clock";
              args = [];
              env = [];
              cwd = none;
            });
          };
          trust_required = false;
        },
      )
      ∷ [];
  timeouts = default_timeouts;
  project = none;
  start = root_dir ∷ [];
}

-- Every server has the tool "time" of the server "clock".
abbrev has_time : Text → Result Value
has_time server = ok (
    Value.object (
      Fields.field (codes "tools")
        (Value.array (
          Items.cons
            (Value.object (
              Fields.field (codes "name") (Value.string (codes "time"))
                (Fields.field (codes "server") (Value.string (codes "clock")) Fields.end)))
            Items.nil))
        Fields.end))

abbrev quote : Text → Text
quote path = path

resolve_time : resolve quote has_time clock_only (ok clock_only) (codes "time") ≡ ok (codes "clock")
unfolding resolve discover ask_servers reports identities identity get complete index append
    candidates
resolve_time = refl

resolve-IsUnique_example :
    IsUnique quote has_time clock_only (ok clock_only) (codes "time") (codes "clock")
resolve-IsUnique_example =
    resolve-IsUnique quote has_time clock_only (ok clock_only) (codes "time") resolve_time

abbrev any_object : Text → Option Value
any_object raw = some (Value.object Fields.end)

abbrev call_time : Call
call_time = record {
  interactive = false;
  input = none;
  positionals = codes "clock" ∷ codes "time" ∷ codes "{}" ∷ [];
}

abbrev time_request : Request
time_request = record {
  interactive = false;
  server = some (codes "clock");
  tool = codes "time";
  input = inline Fields.end;
}

call_time_request : into_request any_object call_time ≡ ok time_request
unfolding into_request read_input pop
call_time_request = refl

into_request-IsPlaced_example : IsPlaced any_object call_time time_request
into_request-IsPlaced_example =
    into_request-IsPlaced any_object call_time {r = time_request} call_time_request
