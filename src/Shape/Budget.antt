-- ===== src/Shape/Budget.antt =====
-- shape.rs: `inspect` never panics, and spends one unit of the budget on each node that it reports.
use ripmcp.Base.{
  ℕ, zero, suc, ◌+◌, ◌-◌, ◌≤◌, ◌<◌, ◌≡◌, refl, inl, inr, Option, none, some, arith, ◌==◌,
  Bool-cases,
}
use ripmcp.Base.Text.{Text}
use ripmcp.Base.Panic.{◌>>=◌}
use ripmcp.Json.{Value, Items, Fields, count_items, count_fields}
use ripmcp.Shape.{
  Report, FieldReports, ItemReports, inspect, inspect_fields, inspect_items, count_field_reports,
  count_item_reports, object_report, array_report,
}

mutual
  pub nodes : Report → ℕ
  nodes (Report.scalar s) = 1
  nodes (Report.object o rs) = suc (nodes_fields rs)
  nodes (Report.array o n rs) = suc (nodes_items rs)

  pub nodes_fields : FieldReports → ℕ
  nodes_fields FieldReports.end = 0
  nodes_fields (FieldReports.field k r rs) = nodes r + nodes_fields rs

  pub nodes_items : ItemReports → ℕ
  nodes_items ItemReports.nil = 0
  nodes_items (ItemReports.cons r rs) = nodes r + nodes_items rs

-- No panic, and the nodes of the report with what is left make up the budget.
abbrev pub Spent : ℕ → Option (Report × ℕ) → Type 0
Spent remaining none = ⊥
Spent remaining (some (report, r)) = nodes report + r ≡ remaining

abbrev pub SpentFields : ℕ → ℕ → ℕ → Option (FieldReports × ℕ) → Type 0
SpentFields total left remaining none = ⊥
SpentFields total left remaining (some (rs, r)) =
    (nodes_fields rs + r ≡ remaining)
    × (count_field_reports rs ≤ total)
    × (count_field_reports rs ≤ left)

abbrev pub SpentItems : ℕ → ℕ → ℕ → Option (ItemReports × ℕ) → Type 0
SpentItems total left remaining none = ⊥
SpentItems total left remaining (some (rs, r)) =
    (nodes_items rs + r ≡ remaining)
    × (count_item_reports rs ≤ total)
    × (count_item_reports rs ≤ left)

-- One round of the loop, from what it calls.
fields_step :
    (total left remaining : ℕ) (k : Text) (o : Option (Report × ℕ))
    (rest : ℕ → Option (FieldReports × ℕ))
    → Spent remaining o
    → ((r : ℕ) → SpentFields total left r (rest r))
    → SpentFields
        (suc total)
        (suc left)
        remaining
        (do (report, r) ← o; (entries, r') ← rest r; some (FieldReports.field k report entries, r'))
unfolding nodes count_field_reports
fields_step total left remaining k none rest h g = h
fields_step total left remaining k (some (report, r)) rest h g = ground (arith, g r)

items_step :
    (total left remaining : ℕ) (o : Option (Report × ℕ)) (rest : ℕ → Option (ItemReports × ℕ))
    → Spent remaining o
    → ((r : ℕ) → SpentItems total left r (rest r))
    → SpentItems
        (suc total)
        (suc left)
        remaining
        (do (report, r) ← o; (entries, r') ← rest r; some (ItemReports.cons report entries, r'))
unfolding nodes count_item_reports
items_step total left remaining none rest h g = h
items_step total left remaining (some (report, r)) rest h g = ground (arith, g r)

module _ (width : ℕ) where
  mutual
    unfolding inspect nodes object_report array_report count_fields count_items count_field_reports
        count_item_reports

    inspect-Spent_lem :
        (v : Value) (depth remaining : ℕ)
        → 0 < remaining
        → Spent remaining (inspect width v depth remaining)
    inspect-Spent_lem Value.null depth remaining h = ground arith
    inspect-Spent_lem (Value.bool b) depth remaining h = ground arith
    inspect-Spent_lem (Value.number n) depth remaining h = ground arith
    inspect-Spent_lem (Value.string s) depth remaining h = ground arith
    inspect-Spent_lem (Value.object fs) depth remaining h =
        ground (arith, inspect_fields-Spent fs width depth (remaining - 1))
    inspect-Spent_lem (Value.array xs) depth remaining h =
        ground (arith, inspect_items-Spent xs width depth (remaining - 1))

    inspect_fields-Spent :
        (fs : Fields) (left depth remaining : ℕ)
        → SpentFields
            (count_fields fs)
            left
            remaining
            (inspect_fields width fs left depth remaining)
    inspect_fields-Spent Fields.end left depth remaining = ground arith
    inspect_fields-Spent (Fields.field k v fs) zero depth remaining = ground arith
    inspect_fields-Spent (Fields.field k v fs) (suc left) depth remaining =
        elim (Bool-cases (remaining == 0)) [
          | inl e ↦ ground arith
          | inr e ↦
              let more =
                fields_step (count_fields fs) left remaining k
                  (inspect width v (depth - 1) remaining) (inspect_fields width fs left depth)
                  (inspect-Spent_lem v (depth - 1) remaining (ground arith))
                  (inspect_fields-Spent fs left depth) in
              ground (arith, more)
        ]

    inspect_items-Spent :
        (xs : Items) (left depth remaining : ℕ)
        → SpentItems (count_items xs) left remaining (inspect_items width xs left depth remaining)
    inspect_items-Spent Items.nil left depth remaining = ground arith
    inspect_items-Spent (Items.cons v xs) zero depth remaining = ground arith
    inspect_items-Spent (Items.cons v xs) (suc left) depth remaining =
        elim (Bool-cases (remaining == 0)) [
          | inl e ↦ ground arith
          | inr e ↦
              let more =
                items_step (count_items xs) left remaining (inspect width v (depth - 1) remaining)
                  (inspect_items width xs left depth)
                  (inspect-Spent_lem v (depth - 1) remaining (ground arith))
                  (inspect_items-Spent xs left depth) in
              ground (arith, more)
        ]

  -- With budget left, `inspect` does not panic, and the nodes of its report and the budget that is
  -- left over make up the budget that it was given.
  pub inspect-Spent :
      (v : Value) (depth remaining : ℕ)
      → 0 < remaining
      → (report : Report) × (r : ℕ) × (inspect width v depth remaining ≡ some (report, r))
        × (nodes report + r ≡ remaining)
  inspect-Spent v depth remaining h =
      go (inspect width v depth remaining) refl (inspect-Spent_lem v depth remaining h)
    where
      go :
          (o : Option (Report × ℕ))
          → inspect width v depth remaining ≡ o
          → Spent remaining o
          → (report : Report) × (r : ℕ) × (inspect width v depth remaining ≡ some (report, r))
            × (nodes report + r ≡ remaining)
      go none e s = absurd s
      go (some (report, r)) e s = (report, r, e, s)
