-- ===== src/Tests/Documents.antt =====
-- json.rs and shape.rs on concrete documents.
use mathlib.Core.Logic.{◌↔◌}
use ripmcp.Base.{ℕ, ◌+◌, ◌≤◌, ◌≡◌, refl, true, Option, some, arith, is_some}
use ripmcp.Base.Text.{codes}
use ripmcp.Json.{Value, Items, Fields, count_items, count_fields, lookup, insert}
use ripmcp.Json.Parse.{RawValue, RawItems, RawFields, value, parse, nesting_limit}
use ripmcp.Json.Parse.Accepts.{parse_iff, height, Clean}
use ripmcp.Json.Parse.Members.{lookup-value, member}
use ripmcp.Shape.{
  Report, FieldReports, ItemReports, boolean, omitted, object_report, array_report, inspect,
  count_field_reports, count_item_reports,
}
use ripmcp.Shape.Budget.{inspect-Spent, nodes}
use ripmcp.Shape.Describes.{Describes, inspect-Describes}

-- {"a": [true, null], "b": "x"}
abbrev members : RawFields
members =
    RawFields.field (some (codes "a"))
      (RawValue.array (
        RawItems.cons (RawValue.scalar (some (Value.bool true)))
          (RawItems.cons (RawValue.scalar (some Value.null)) RawItems.nil)))
      (RawFields.field (some (codes "b")) (RawValue.scalar (some (Value.string (codes "x"))))
        RawFields.end)

abbrev document : RawValue
document = RawValue.object members

abbrev fields : Fields
fields =
    Fields.field (codes "a")
      (Value.array (Items.cons (Value.bool true) (Items.cons Value.null Items.nil)))
      (Fields.field (codes "b") (Value.string (codes "x")) Fields.end)

abbrev scan : RawValue → Option RawValue
scan = some

parse_document : parse scan document ≡ some (Value.object fields)
unfolding parse value lookup insert
parse_document = refl

parse_iff_example :
    (is_some (parse scan document) ≡ true) ↔ ((height document ≤ nesting_limit) × Clean document)
parse_iff_example = parse_iff scan document document refl

lookup-value_example : lookup (codes "b") fields ≡ member (codes "b") members (0 + 1)
unfolding value parse
lookup-value_example = lookup-value (codes "b") members 0 fields parse_document

inspect-Spent_example :
    (report : Report) × (r : ℕ) × (inspect 1 (Value.object fields) 2 10 ≡ some (report, r))
    × (nodes report + r ≡ 10)
inspect-Spent_example = inspect-Spent 1 (Value.object fields) 2 10 (omega arith)

abbrev narrow : Report
narrow = Report.object (omitted 1) (
    FieldReports.field (codes "a")
      (Report.array (omitted 1) 2 (ItemReports.cons (Report.scalar boolean) ItemReports.nil))
      FieldReports.end)

inspect-narrow : inspect 1 (Value.object fields) 2 10 ≡ some (narrow, 7)
unfolding inspect object_report array_report omitted count_fields count_items count_field_reports
    count_item_reports
inspect-narrow = refl

inspect-Describes_example : Describes 1 2 (Value.object fields) narrow
inspect-Describes_example = inspect-Describes 1 (Value.object fields) 2 10 inspect-narrow
