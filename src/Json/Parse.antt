-- ===== src/Json/Parse.antt =====
-- json.rs: the value of a document, with a limit on nesting and no key twice in an object.
-- serde_json's scanner is a parameter: `RawValue` is the syntax that it hands over, whose scalars
-- and keys may still fail to decode.
pub mod Accepts
pub mod Members
use ripmcp.Base.{ℕ, zero, suc, ◌+◌, Option, none, some, leb, if◌then◌else◌}
use ripmcp.Base.Panic.{◌>>=◌}
use ripmcp.Base.Text.{Text}
use ripmcp.Json.{Value, Items, Fields, contains_key, insert}

mutual
  pub data RawValue : Type 0 where
    scalar : Option Value → RawValue
    array : RawItems → RawValue
    object : RawFields → RawValue

  pub data RawItems : Type 0 where
    nil : RawItems
    cons : RawValue → RawItems → RawItems

  pub data RawFields : Type 0 where
    end : RawFields
    field : Option Text → RawValue → RawFields → RawFields

abbrev pub nesting_limit : ℕ
nesting_limit = 128

unfoldable mutual
  -- `none` is an error.
  pub value : RawValue → ℕ → Option Value
  value (scalar decoded) depth = if leb nesting_limit depth then none else decoded
  value (array xs) depth =
      let container = (do vs ← visit_seq xs (depth + 1); some (Value.array vs)) in
      if leb nesting_limit depth then none else container
  value (object fs) depth =
      let container = (do vs ← visit_map fs (depth + 1) Fields.end; some (Value.object vs)) in
      if leb nesting_limit depth then none else container

  pub visit_seq : RawItems → ℕ → Option Items
  visit_seq nil depth = some Items.nil
  visit_seq (cons x xs) depth = do
    v ← value x depth
    vs ← visit_seq xs depth
    some (Items.cons v vs)

  pub visit_map : RawFields → ℕ → Fields → Option Fields
  visit_map end depth values = some values
  visit_map (field none x fs) depth values = none
  visit_map (field (some key) x fs) depth values =
      let rest = (do v ← value x depth; visit_map fs depth (insert key v values)) in
      if contains_key key values then none else rest

module _ {ℓ} {Bytes : Type ℓ} (scan : Bytes → Option RawValue) where
  unfoldable pub parse : Bytes → Option Value
  parse bytes = do raw ← scan bytes; value raw 0
