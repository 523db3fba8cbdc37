-- ===== src/Commands/Input.antt =====
-- call.rs: what a call on the command line asks for.
pub mod Positions
use ripmcp.Base.{
  Bool, true, false, not, ◌&&◌, ◌||◌, Option, none, some, List, [], ◌∷◌, any, is_empty, length, ltb,
  leb, if◌then◌else◌,
}
use ripmcp.Base.Error.{Error, Result, new, usage, ok, err, refuse, ok_or, ◌>>=◌, ◌>>◌}
use ripmcp.Base.Order.{eqb, list_ord, nat_ord}
use ripmcp.Base.Text.{Text, codes}
use ripmcp.Json.{Value, Fields}

pub data Input : Type 0 where
  inline : Fields → Input
  file : Text → Input
  stdin : Input

pub record Request : Type 0 where
  pub interactive : Bool
  pub server : Option Text
  pub tool : Text
  pub input : Input

-- `Call` of cli.rs
pub record Call : Type 0 where
  pub interactive : Bool
  pub input : Option Text
  pub positionals : List Text

abbrev pub invalid : Error
invalid = new usage "expected call [server] tool JSON-object or call [server] tool --input file|-"

-- `Vec::pop`
unfoldable pub pop : List Text → Option (Text × List Text)
pop [] = none
pop (x ∷ xs) = elim (pop xs) [ none ↦ some (x, []) | some (y, ys) ↦ some (y, x ∷ ys) ]

abbrev pub last : Option (Text × List Text) → Option Text
last none = none
last (some (x, xs)) = some x

-- `crate::json::parse` on the bytes of the text.
module _ (parse : Text → Option Value) where
  abbrev pub inline_input : Option Value → Result Input
  inline_input (some (Value.object fields)) = ok (inline fields)
  inline_input _ = err invalid

  -- The input, and the names that are left.
  unfoldable pub read_input : Option Text → List Text → Result (Input × List Text)
  read_input (some path) names = ok (if eqb path (codes "-") then stdin else file path, names)
  read_input none names = do
    (raw, names) ← ok_or (pop names) invalid
    input ← inline_input (parse raw)
    ok (input, names)

  unfoldable pub into_request : Call → Result Request
  into_request call = do
    (input, names) ← read_input call.input call.positionals
    refuse (not (leb 1 (length names) && leb (length names) 2) || any is_empty names) invalid
    (tool, names) ← ok_or (pop names) invalid
    ok (record {
      interactive = call.interactive;
      server = last (pop names);
      tool = tool;
      input = input;
    })
