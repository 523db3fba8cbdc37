-- ===== src/Shape.antt =====
-- shape.rs: the structure of a value, to a bounded depth and width, within a budget of nodes.
pub mod Budget
pub mod Describes
use mathlib.Core.Bool.{◌||◌, not}
use ripmcp.Base.{ℕ, zero, suc, ◌-◌, Bool, true, false, Option, none, some, ◌==◌, if◌then◌else◌}
use ripmcp.Base.Panic.{◌>>=◌, checked_sub}
use ripmcp.Base.Text.{Text}
use ripmcp.Json.{Value, Items, Fields, count_items, count_fields}

pub data Scalar : Type 0 where
  null boolean number string : Scalar

-- What `omitted` writes: "truncated", and "omitted" where something was left out.
pub record Omission : Type 0 where
  pub truncated : Bool
  pub omitted : Option ℕ

unfoldable pub omitted : ℕ → Omission
omitted count = record {
  truncated = not (count == 0);
  omitted = if count == 0 then none else some count;
}

-- The JSON object that `inspect` returns, its "type" being the constructor.
mutual
  pub data Report : Type 0 where
    scalar : Scalar → Report
    object : Omission → FieldReports → Report
    array : Omission → ℕ → ItemReports → Report

  pub data FieldReports : Type 0 where
    end : FieldReports
    field : Text → Report → FieldReports → FieldReports

  pub data ItemReports : Type 0 where
    nil : ItemReports
    cons : Report → ItemReports → ItemReports

unfoldable pub count_field_reports : FieldReports → ℕ
count_field_reports end = 0
count_field_reports (field k r rs) = suc (count_field_reports rs)

unfoldable pub count_item_reports : ItemReports → ℕ
count_item_reports nil = 0
count_item_reports (cons r rs) = suc (count_item_reports rs)

-- `omitted(&mut report, fields.len() - entries.len())` and the field "fields".
unfoldable pub object_report : ℕ → FieldReports → Option Report
unfolding omitted
object_report total entries = do
  count ← checked_sub total (count_field_reports entries)
  some (Report.object (omitted count) entries)

unfoldable pub array_report : ℕ → ItemReports → Option Report
unfolding omitted
array_report total entries = do
  count ← checked_sub total (count_item_reports entries)
  some (Report.array (omitted count) total entries)

-- `inspect` with the rest of the budget; the loops count down `take(width)`.
module _ (width : ℕ) where
  unfoldable mutual
    pub inspect : Value → ℕ → ℕ → Option (Report × ℕ)
    inspect Value.null depth remaining = do
      r ← checked_sub remaining 1
      some (scalar Scalar.null, r)
    inspect (Value.bool b) depth remaining = do
      r ← checked_sub remaining 1
      some (scalar boolean, r)
    inspect (Value.number n) depth remaining = do
      r ← checked_sub remaining 1
      some (scalar Scalar.number, r)
    inspect (Value.string s) depth remaining = do
      r ← checked_sub remaining 1
      some (scalar Scalar.string, r)
    inspect (Value.object fs) depth remaining = do
      r ← checked_sub remaining 1
      (entries, r') ← inspect_fields fs width depth r
      report ← object_report (count_fields fs) entries
      some (report, r')
    inspect (Value.array xs) depth remaining = do
      r ← checked_sub remaining 1
      (entries, r') ← inspect_items xs width depth r
      report ← array_report (count_items xs) entries
      some (report, r')

    pub inspect_fields : Fields → ℕ → ℕ → ℕ → Option (FieldReports × ℕ)
    inspect_fields Fields.end left depth remaining = some (FieldReports.end, remaining)
    inspect_fields (Fields.field k v fs) zero depth remaining = some (FieldReports.end, remaining)
    inspect_fields (Fields.field k v fs) (suc left) depth remaining =
        let entry = (do
          (report, r) ← inspect v (depth - 1) remaining
          (entries, r') ← inspect_fields fs left depth r
          some (FieldReports.field k report entries, r')) in
        if depth == 0 || remaining == 0 then some (FieldReports.end, remaining) else entry

    pub inspect_items : Items → ℕ → ℕ → ℕ → Option (ItemReports × ℕ)
    inspect_items Items.nil left depth remaining = some (ItemReports.nil, remaining)
    inspect_items (Items.cons v xs) zero depth remaining = some (ItemReports.nil, remaining)
    inspect_items (Items.cons v xs) (suc left) depth remaining =
        let entry = (do
          (report, r) ← inspect v (depth - 1) remaining
          (entries, r') ← inspect_items xs left depth r
          some (ItemReports.cons report entries, r')) in
        if depth == 0 || remaining == 0 then some (ItemReports.nil, remaining) else entry

-- The call in `run`.
abbrev pub node_limit : ℕ
node_limit = 100000

unfoldable pub shape : Value → ℕ → ℕ → Option Report
shape value depth width = do (report, _) ← inspect width value depth node_limit; some report
