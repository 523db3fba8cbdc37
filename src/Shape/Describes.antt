-- ===== src/Shape/Describes.antt =====
-- shape.rs: a report describes a value, no deeper and no wider than was asked.
use ripmcp.Base.{
  ℕ, zero, suc, ◌-◌, ◌≤◌, ◌≡◌, refl, Option, none, some, arith, Bool, true, false, ◌||◌, ◌==◌,
  if◌then◌else◌,
}
use ripmcp.Base.Text.{Text}
use ripmcp.Base.Panic.{◌>>=◌, checked_sub, checked_sub_le}
use ripmcp.Json.{Value, Items, Fields, count_items, count_fields}
use ripmcp.Shape.{
  Scalar, Report, FieldReports, ItemReports, inspect, inspect_fields, inspect_items,
  count_field_reports, count_item_reports, object_report, array_report, omitted,
}

suc-sub-one : (n : ℕ) → suc n - 1 ≡ n
suc-sub-one n = omega arith

either : {A : Type 0} (P : A → Type 0) (b : Bool) (x y : A) → P x → P y → P (if b then x else y)
either P true x y hx hy = hx
either P false x y hx hy = hy

-- The children of a report are a prefix of the value's, and what it says was left out is the rest.
module _ (width : ℕ) where
  mutual
    pub Describes : ℕ → Value → Report → Type 0
    Describes depth Value.null rep = rep ≡ Report.scalar Scalar.null
    Describes depth (Value.bool b) rep = rep ≡ Report.scalar Scalar.boolean
    Describes depth (Value.number n) rep = rep ≡ Report.scalar Scalar.number
    Describes depth (Value.string s) rep = rep ≡ Report.scalar Scalar.string
    Describes depth (Value.object fs) rep =
        (rs : FieldReports) × (rep
          ≡ Report.object (omitted (count_fields fs - count_field_reports rs)) rs)
        × (count_field_reports rs ≤ width)
        × (count_field_reports rs ≤ count_fields fs)
        × DescribesFields depth fs rs
    Describes depth (Value.array xs) rep =
        (rs : ItemReports) × (rep
          ≡ Report.array (omitted (count_items xs - count_item_reports rs)) (count_items xs) rs)
        × (count_item_reports rs ≤ width)
        × (count_item_reports rs ≤ count_items xs)
        × DescribesItems depth xs rs

    pub DescribesFields : ℕ → Fields → FieldReports → Type 0
    DescribesFields depth fs FieldReports.end = Unit
    DescribesFields depth Fields.end (FieldReports.field k r rs) = ⊥
    DescribesFields zero (Fields.field j v fs) (FieldReports.field k r rs) = ⊥
    DescribesFields (suc depth) (Fields.field j v fs) (FieldReports.field k r rs) =
        (j ≡ k) × Describes depth v r × DescribesFields (suc depth) fs rs

    pub DescribesItems : ℕ → Items → ItemReports → Type 0
    DescribesItems depth xs ItemReports.nil = Unit
    DescribesItems depth Items.nil (ItemReports.cons r rs) = ⊥
    DescribesItems zero (Items.cons v xs) (ItemReports.cons r rs) = ⊥
    DescribesItems (suc depth) (Items.cons v xs) (ItemReports.cons r rs) =
        Describes depth v r × DescribesItems (suc depth) xs rs

  abbrev Describing : ℕ → Value → Option (Report × ℕ) → Type 0
  Describing depth v none = Unit
  Describing depth v (some (report, r)) = Describes depth v report

  abbrev DescribingFields : ℕ → Fields → ℕ → Option (FieldReports × ℕ) → Type 0
  DescribingFields depth fs left none = Unit
  DescribingFields depth fs left (some (rs, r)) =
      DescribesFields depth fs rs
      × (count_field_reports rs ≤ left)
      × (count_field_reports rs ≤ count_fields fs)

  abbrev DescribingItems : ℕ → Items → ℕ → Option (ItemReports × ℕ) → Type 0
  DescribingItems depth xs left none = Unit
  DescribingItems depth xs left (some (rs, r)) =
      DescribesItems depth xs rs
      × (count_item_reports rs ≤ left)
      × (count_item_reports rs ≤ count_items xs)

  fields_round :
      (depth left : ℕ) (k : Text) (v : Value) (fs : Fields) (o : Option (Report × ℕ))
      (rest : ℕ → Option (FieldReports × ℕ))
      → Describing depth v o
      → ((r : ℕ) → DescribingFields (suc depth) fs left (rest r))
      → DescribingFields (suc depth) (Fields.field k v fs) (suc left) (do
        (report, r) ← o
        (entries, r') ← rest r
        some (FieldReports.field k report entries, r'))
  unfolding Describes count_field_reports count_fields
  fields_round depth left k v fs none rest h g = tt
  fields_round depth left k v fs (some (report, r)) rest h g = go (rest r) (g r)
    where
      go :
          (o : Option (FieldReports × ℕ))
          → DescribingFields (suc depth) fs left o
          → DescribingFields
              (suc depth)
              (Fields.field k v fs)
              (suc left)
              (do (entries, r') ← o; some (FieldReports.field k report entries, r'))
      go none d = tt
      go (some (entries, r')) d = ((refl, h, d.0), omega arith, omega arith)

  items_round :
      (depth left : ℕ) (v : Value) (xs : Items) (o : Option (Report × ℕ))
      (rest : ℕ → Option (ItemReports × ℕ))
      → Describing depth v o
      → ((r : ℕ) → DescribingItems (suc depth) xs left (rest r))
      → DescribingItems
          (suc depth)
          (Items.cons v xs)
          (suc left)
          (do (report, r) ← o; (entries, r') ← rest r; some (ItemReports.cons report entries, r'))
  unfolding Describes count_item_reports count_items
  items_round depth left v xs none rest h g = tt
  items_round depth left v xs (some (report, r)) rest h g = go (rest r) (g r)
    where
      go :
          (o : Option (ItemReports × ℕ))
          → DescribingItems (suc depth) xs left o
          → DescribingItems
              (suc depth)
              (Items.cons v xs)
              (suc left)
              (do (entries, r') ← o; some (ItemReports.cons report entries, r'))
      go none d = tt
      go (some (entries, r')) d = ((h, d.0), omega arith, omega arith)

  object_report-Describes :
      (depth : ℕ) (fs : Fields) (o : Option (FieldReports × ℕ))
      → DescribingFields depth fs width o
      → Describing depth (Value.object fs) (do
        (entries, r') ← o
        report ← object_report (count_fields fs) entries
        some (report, r'))
  unfolding Describes object_report
  object_report-Describes depth fs none h = tt
  object_report-Describes depth fs (some (rs, r)) h =
      rw (checked_sub_le _ _ h.2) (rs, refl, h.1, h.2, h.0)

  array_report-Describes :
      (depth : ℕ) (xs : Items) (o : Option (ItemReports × ℕ))
      → DescribingItems depth xs width o
      → Describing depth
          (Value.array xs)
          (do (entries, r') ← o; report ← array_report (count_items xs) entries; some (report, r'))
  unfolding Describes array_report
  array_report-Describes depth xs none h = tt
  array_report-Describes depth xs (some (rs, r)) h =
      rw (checked_sub_le _ _ h.2) (rs, refl, h.1, h.2, h.0)

  after :
      (depth : ℕ) (v : Value) (s : Option ℕ) (f : ℕ → Option (Report × ℕ))
      → ((r : ℕ) → Describing depth v (f r))
      → Describing depth v (s >>= f)
  after depth v none f h = tt
  after depth v (some r) f h = h r

  mutual
    unfolding inspect Describes count_field_reports count_item_reports count_fields count_items

    inspect-Describing :
        (v : Value) (depth remaining : ℕ) → Describing depth v (inspect width v depth remaining)
    inspect-Describing Value.null depth remaining = ground arith
    inspect-Describing (Value.bool b) depth remaining = ground arith
    inspect-Describing (Value.number n) depth remaining = ground arith
    inspect-Describing (Value.string s) depth remaining = ground arith
    inspect-Describing (Value.object fs) depth remaining =
        after depth (Value.object fs) (checked_sub remaining 1) _ λ r.
          object_report-Describes depth fs (inspect_fields width fs width depth r)
            (inspect_fields-Describing fs width depth r)
    inspect-Describing (Value.array xs) depth remaining =
        after depth (Value.array xs) (checked_sub remaining 1) _ λ r.
          array_report-Describes depth xs (inspect_items width xs width depth r)
            (inspect_items-Describing xs width depth r)

    inspect_fields-Describing :
        (fs : Fields) (left depth remaining : ℕ)
        → DescribingFields depth fs left (inspect_fields width fs left depth remaining)
    inspect_fields-Describing Fields.end left depth remaining = (tt, omega arith, omega arith)
    inspect_fields-Describing (Fields.field k v fs) zero depth remaining =
        (tt, omega arith, omega arith)
    inspect_fields-Describing (Fields.field k v fs) (suc left) zero remaining =
        (tt, omega arith, omega arith)
    inspect_fields-Describing (Fields.field k v fs) (suc left) (suc depth) remaining =
        rw (suc-sub-one depth) (
          either (DescribingFields (suc depth) (Fields.field k v fs) (suc left))
            (suc depth == 0 || remaining == 0) (some (FieldReports.end, remaining)) _
            (tt, omega arith, omega arith)
            (fields_round depth left k v fs (inspect width v depth remaining)
              (inspect_fields width fs left (suc depth)) (inspect-Describing v depth remaining)
              (inspect_fields-Describing fs left (suc depth))))

    inspect_items-Describing :
        (xs : Items) (left depth remaining : ℕ)
        → DescribingItems depth xs left (inspect_items width xs left depth remaining)
    inspect_items-Describing Items.nil left depth remaining = (tt, omega arith, omega arith)
    inspect_items-Describing (Items.cons v xs) zero depth remaining = (tt, omega arith, omega arith)
    inspect_items-Describing (Items.cons v xs) (suc left) zero remaining =
        (tt, omega arith, omega arith)
    inspect_items-Describing (Items.cons v xs) (suc left) (suc depth) remaining =
        rw (suc-sub-one depth) (
          either (DescribingItems (suc depth) (Items.cons v xs) (suc left))
            (suc depth == 0 || remaining == 0) (some (ItemReports.nil, remaining)) _
            (tt, omega arith, omega arith)
            (items_round depth left v xs (inspect width v depth remaining)
              (inspect_items width xs left (suc depth)) (inspect-Describing v depth remaining)
              (inspect_items-Describing xs left (suc depth))))

  -- What `inspect` reports describes the value, with at most `width` children each, down to
  -- `depth`.
  pub inspect-Describes :
      (v : Value) (depth remaining : ℕ) {report : Report} {r : ℕ}
      → inspect width v depth remaining ≡ some (report, r)
      → Describes depth v report
  inspect-Describes v depth remaining e = rw e at (inspect-Describing v depth remaining)
