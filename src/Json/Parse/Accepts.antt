-- ===== src/Json/Parse/Accepts.antt =====
-- json.rs: which documents are accepted.
use ripmcp.Base.{ℕ, suc, ◌+◌, ◌≤◌, ◌≡◌, ◌↔◌, Option, none, some, true, false, is_some, arith, refl}
use ripmcp.Base.Panic.{◌>>=◌}
use ripmcp.Base.Order.{eqb, eqb_iff, list_ord, nat_ord}
use ripmcp.Base.Text.{Text}
use ripmcp.Json.{Value, Fields, lookup, insert, lookup-insert, contains_key}
use ripmcp.Json.Parse.{
  RawValue, RawItems, RawFields, value, visit_seq, visit_map, parse, nesting_limit,
}
use Prim.Native.Nat.{max}

mutual
  pub height : RawValue → ℕ
  height (RawValue.scalar v) = 1
  height (RawValue.array xs) = suc (height_items xs)
  height (RawValue.object fs) = suc (height_fields fs)

  pub height_items : RawItems → ℕ
  height_items RawItems.nil = 0
  height_items (RawItems.cons x xs) = max (height x) (height_items xs)

  pub height_fields : RawFields → ℕ
  height_fields RawFields.end = 0
  height_fields (RawFields.field k x fs) = max (height x) (height_fields fs)

-- `k` is no key of the object.
pub Absent : Text → RawFields → Type 0
Absent k RawFields.end = Unit
Absent k (RawFields.field none x fs) = Absent k fs
Absent k (RawFields.field (some j) x fs) = (eqb k j ≡ false) × Absent k fs

-- Every scalar and key decodes, and no object has a key twice.
mutual
  pub Clean : RawValue → Type 0
  Clean (RawValue.scalar v) = is_some v ≡ true
  Clean (RawValue.array xs) = CleanItems xs
  Clean (RawValue.object fs) = CleanFields fs

  pub CleanItems : RawItems → Type 0
  CleanItems RawItems.nil = Unit
  CleanItems (RawItems.cons x xs) = Clean x × CleanItems xs

  pub CleanFields : RawFields → Type 0
  CleanFields RawFields.end = Unit
  CleanFields (RawFields.field none x fs) = ⊥
  CleanFields (RawFields.field (some k) x fs) = Absent k fs × Clean x × CleanFields fs

-- No key of the object is in the map.
Fresh : RawFields → Fields → Type 0
Fresh RawFields.end m = Unit
Fresh (RawFields.field none x fs) m = Fresh fs m
Fresh (RawFields.field (some k) x fs) m = (contains_key k m ≡ false) × Fresh fs m

Fresh-insert :
    (fs : RawFields) (k : Text) (v : Value) (m : Fields)
    → Fresh fs (insert k v m) ↔ (Absent k fs × Fresh fs m)
unfolding Fresh Absent
Fresh-insert RawFields.end k v m = ground arith
Fresh-insert (RawFields.field none x fs) k v m = ground (arith, Fresh-insert fs k v m)
Fresh-insert (RawFields.field (some j) x fs) k v m =
    ground (arith, Fresh-insert fs k v m, lookup-insert j k v m, eqb_iff k j, eqb_iff j k)

Fresh-end : (fs : RawFields) → Fresh fs Fields.end
unfolding Fresh lookup
Fresh-end RawFields.end = tt
Fresh-end (RawFields.field none x fs) = Fresh-end fs
Fresh-end (RawFields.field (some k) x fs) = (refl, Fresh-end fs)

bind_iff :
    {A B : Type 0} (P Q : Type 0) (o : Option A) (f : A → Option B)
    → (is_some o ≡ true) ↔ P
    → ((a : A) → (is_some (f a) ≡ true) ↔ Q)
    → (is_some (o >>= f) ≡ true) ↔ (P × Q)
bind_iff P Q none f h g = (λ e. cc, λ e. h.1 e.0)
bind_iff P Q (some a) f h g = (λ e. (h.0 refl, (g a).0 e), λ e. (g a).1 e.1)

mutual
  unfolding value height Clean Fresh Absent

  value_iff :
      (raw : RawValue) (depth : ℕ)
      → (is_some (value raw depth) ≡ true) ↔ ((height raw + depth ≤ nesting_limit) × Clean raw)
  value_iff (RawValue.scalar v) depth = ground arith
  value_iff (RawValue.array xs) depth = ground (arith, visit_seq_iff xs (depth + 1))
  value_iff (RawValue.object fs) depth =
      ground (arith, visit_map_iff fs (depth + 1) Fields.end, Fresh-end fs)

  visit_seq_iff :
      (xs : RawItems) (depth : ℕ)
      → depth ≤ nesting_limit
      → (is_some (visit_seq xs depth) ≡ true)
        ↔ ((height_items xs + depth ≤ nesting_limit) × CleanItems xs)
  visit_seq_iff RawItems.nil depth h = ground arith
  visit_seq_iff (RawItems.cons x xs) depth h =
      ground (arith, value_iff x depth, visit_seq_iff xs depth h)

  visit_map_iff :
      (fs : RawFields) (depth : ℕ) (m : Fields)
      → depth ≤ nesting_limit
      → (is_some (visit_map fs depth m) ≡ true)
        ↔ ((height_fields fs + depth ≤ nesting_limit) × CleanFields fs × Fresh fs m)
  visit_map_iff RawFields.end depth m h = ground arith
  visit_map_iff (RawFields.field none x fs) depth m h = (λ e. cc, λ e. absurd e.1)
  visit_map_iff (RawFields.field (some k) x fs) depth m h =
      let rest =
        bind_iff ((height x + depth ≤ nesting_limit) × Clean x)
          ((height_fields fs + depth ≤ nesting_limit) × CleanFields fs × (Absent k fs × Fresh fs m))
          (value x depth) (λ v. visit_map fs depth (insert k v m)) (value_iff x depth)
          (λ v.
            let (to, from) = visit_map_iff fs depth (insert k v m) h in
            let (into, out) = Fresh-insert fs k v m in
            (
              λ e. let (a, b, c) = to e in (a, b, into c),
              λ e. let (a, b, c) = e in from (a, b, out c),
            )) in
      ground (arith, rest)

-- A document that the scanner accepts has a value exactly if its nesting is within the limit, every
-- scalar and key in it decodes, and no object in it has a key twice.
pub parse_iff {ℓ} :
    {Bytes : Type ℓ} (scan : Bytes → Option RawValue) (bytes : Bytes) (raw : RawValue)
    → scan bytes ≡ some raw
    → (is_some (parse scan bytes) ≡ true) ↔ ((height raw ≤ nesting_limit) × Clean raw)
unfolding parse
parse_iff scan bytes raw e = rw e (ground (arith, value_iff raw 0))
