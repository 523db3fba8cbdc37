-- ===== src/Json/Defs.antt =====
-- `serde_json::Value`, `Value::get` and indexing by a key.
use ripmcp.Base.{
  ℕ, suc, ◌≡◌, refl, arith, Ordering, is_some, Bool, true, false, Option, none, some, if◌then◌else◌,
}
use ripmcp.Base.Order.{eqb, eqb_iff, cmp_list, cmp_list_iff, list_ord, nat_ord}
use ripmcp.Base.Text.{Text}

mutual
  pub data Value : Type 0 where
    null : Value
    bool : Bool → Value
    number : Text → Value
    string : Text → Value
    array : Items → Value
    object : Fields → Value

  pub data Items : Type 0 where
    nil : Items
    cons : Value → Items → Items

  pub data Fields : Type 0 where
    end : Fields
    field : Text → Value → Fields → Fields

unfoldable pub lookup : Text → Fields → Option Value
lookup k end = none
lookup k (field j v fs) = if eqb k j then some v else lookup k fs

-- `value.get(key)`
unfoldable pub get : Value → Text → Option Value
unfolding lookup
get (object fs) k = lookup k fs
get _ k = none

-- `value[key]`: null where there is no such field.
unfoldable pub index : Value → Text → Value
unfolding get
index v k = elim (get v k) [ none ↦ null | some w ↦ w ]

abbrev pub as_str : Value → Option Text
as_str (string s) = some s
as_str _ = none

abbrev pub as_array : Value → Option Items
as_array (array xs) = some xs
as_array _ = none

abbrev pub is_object : Value → Bool
is_object (object _) = true
is_object _ = false

abbrev pub is_string : Value → Bool
is_string (string _) = true
is_string _ = false

abbrev pub is_boolean : Value → Bool
is_boolean (bool _) = true
is_boolean _ = false

abbrev pub is_null : Value → Bool
is_null null = true
is_null _ = false

-- `value == "literal"`
abbrev pub is_str : Value → Text → Bool
is_str (string s) t = eqb s t
is_str _ t = false

unfoldable pub count_items : Items → ℕ
count_items nil = 0
count_items (cons x xs) = suc (count_items xs)

unfoldable pub count_fields : Fields → ℕ
count_fields end = 0
count_fields (field k v fs) = suc (count_fields fs)

-- `Map::contains_key` and `Map::insert`: the map is in key order.
abbrev pub contains_key : Text → Fields → Bool
contains_key k fs = is_some (lookup k fs)

unfoldable pub insert : Text → Value → Fields → Fields
insert k v end = field k v end
insert k v (field j w fs) = elim (cmp_list k j) [
  | Ordering.lt ↦ field k v (field j w fs)
  | Ordering.eq ↦ field k v fs
  | Ordering.gt ↦ field j w (insert k v fs)
]

pub lookup-insert :
    (j k : Text) (v : Value) (fs : Fields)
    → lookup j (insert k v fs) ≡ (if eqb j k then some v else lookup j fs)
unfolding lookup insert
lookup-insert j k v end = refl
lookup-insert j k v (field i w fs) =
    ground (arith, cmp_list_iff j k, cmp_list_iff k i, cmp_list_iff j i, lookup-insert j k v fs)

-- `Map::remove`
unfoldable pub remove : Text → Fields → Fields
remove k end = end
remove k (field j w fs) = let rest = remove k fs in if eqb k j then rest else field j w rest

pub lookup-remove :
    (j k : Text) (fs : Fields) → lookup j (remove k fs) ≡ (if eqb j k then none else lookup j fs)
unfolding lookup remove
lookup-remove j k end = ground arith
lookup-remove j k (field i w fs) =
    ground (arith, eqb_iff j k, eqb_iff k i, eqb_iff j i, lookup-remove j k fs)
