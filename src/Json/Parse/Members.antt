-- ===== src/Json/Parse/Members.antt =====
-- json.rs: an accepted object keeps every member, with the member's own value.
use ripmcp.Base.{ℕ, ◌+◌, ◌≡◌, refl, Option, none, some, arith, if◌then◌else◌}
use ripmcp.Base.Order.{eqb, eqb_iff, list_ord, nat_ord}
use ripmcp.Base.Text.{Text}
use ripmcp.Json.{Value, Fields, lookup, insert, lookup-insert, contains_key}
use ripmcp.Json.Parse.{RawValue, RawFields, value, visit_map}

-- The value of the first member of that key.
pub member : Text → RawFields → ℕ → Option Value
member k RawFields.end depth = none
member k (RawFields.field none x fs) depth = member k fs depth
member k (RawFields.field (some j) x fs) depth =
    if eqb k j then value x depth else member k fs depth

-- One round of `visit_map`, from what the later rounds do.
member_step :
    (k j : Text) (x : RawValue) (fs : RawFields) (depth : ℕ) (m : Fields) {m' : Fields}
    (o : Option Value)
    → value x depth ≡ o
    → visit_map (RawFields.field (some j) x fs) depth m ≡ some m'
    → ((v : Value)
        → visit_map fs depth (insert j v m) ≡ some m'
        → lookup k m'
          ≡ (if contains_key k (insert j v m) then lookup k (insert j v m) else member k fs depth))
    → lookup k m'
      ≡ (if contains_key k m then lookup k m else member k (RawFields.field (some j) x fs) depth)
unfolding value member
member_step k j x fs depth m none p e rest = ground arith
member_step k j x fs depth m (some v) p e rest =
    ground (arith, rest v, lookup-insert k j v m, eqb_iff k j)

visit_map-member :
    (k : Text) (fs : RawFields) (depth : ℕ) (m : Fields) (m' : Fields)
    → visit_map fs depth m ≡ some m'
    → lookup k m' ≡ (if contains_key k m then lookup k m else member k fs depth)
unfolding value member
visit_map-member k RawFields.end depth m m' e = ground arith
visit_map-member k (RawFields.field none x fs) depth m m' e = cc
visit_map-member k (RawFields.field (some j) x fs) depth m m' e =
    member_step k j x fs depth m (value x depth) refl e
      (λ v. visit_map-member k fs depth (insert j v m) m')

-- In the value of an object, every key has the value of the object's member of that key, one level
-- further down, and there is no other key.
pub lookup-value :
    (k : Text) (fs : RawFields) (depth : ℕ) (m : Fields)
    → value (RawValue.object fs) depth ≡ some (Value.object m)
    → lookup k m ≡ member k fs (depth + 1)
unfolding value lookup
lookup-value k fs depth m e = ground (arith, visit_map-member k fs (depth + 1) Fields.end m)
