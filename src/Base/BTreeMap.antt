-- ===== src/Base/BTreeMap.antt =====
-- Rust's `BTreeMap` as a list of entries in key order, and `BTreeSet` as a map to units. The laws
-- do
-- not depend on the order; iteration does.
use mathlib.Core.Path.{◌≡◌, refl}
use mathlib.Core.Bool.{Bool}
use mathlib.Core.Option.{Option, none, some}
use mathlib.Core.List.{List, [], ◌∷◌, map}
use native.Mathlib.Omega.{arith}
use Prim.Native.Nat.{Ordering}
use ripmcp.Base.Tests.{if◌then◌else◌, is_some}
use ripmcp.Base.Order.{Ord, eqb}

abbrev pub BTreeMap {ℓ κ} : Type ℓ → Type κ → Type (ℓ ⊔ κ)
BTreeMap K V = List (K × V)

abbrev pub BTreeSet {ℓ} : Type ℓ → Type ℓ
BTreeSet K = BTreeMap K (Unit {0})

module _ {ℓ κ} {K : Type ℓ} {V : Type κ} where
  abbrev pub keys : BTreeMap K V → List K
  keys = map (λ (k, _). k)

  abbrev pub values : BTreeMap K V → List V
  values = map (λ (_, v). v)

module _ {ℓ κ} {K : Type ℓ} {V : Type κ} ⦃o : Ord K⦄ where
  unfoldable pub get : K → BTreeMap K V → Option V
  get k [] = none
  get k ((j, v) ∷ m) = if eqb k j then some v else get k m

  abbrev pub contains_key : K → BTreeMap K V → Bool
  contains_key k m = is_some (get k m)

  unfoldable pub insert : K → V → BTreeMap K V → BTreeMap K V
  insert k v [] = (k, v) ∷ []
  insert k v ((j, w) ∷ m) = elim (o.cmp k j) [
    | Ordering.lt ↦ (k, v) ∷ (j, w) ∷ m
    | Ordering.eq ↦ (k, v) ∷ m
    | Ordering.gt ↦ (j, w) ∷ insert k v m
  ]

  unfoldable pub remove : K → BTreeMap K V → BTreeMap K V
  remove k [] = []
  remove k ((j, w) ∷ m) = let rest = remove k m in if eqb k j then rest else (j, w) ∷ rest

  pub get-nil : (k : K) → get k [] ≡ none
  unfolding get
  get-nil k = refl

  pub get-cons :
      (j k : K) (v : V) (m : BTreeMap K V)
      → get j ((k, v) ∷ m) ≡ (if eqb j k then some v else get j m)
  unfolding get
  get-cons j k v m = refl

  pub get-insert :
      (j k : K) (v : V) (m : BTreeMap K V)
      → get j (insert k v m) ≡ (if eqb j k then some v else get j m)
  unfolding get insert
  get-insert j k v [] = refl
  get-insert j k v ((i, w) ∷ m) =
      ground (arith, o.cmp_iff j k, o.cmp_iff k i, o.cmp_iff j i, get-insert j k v m)

  pub get-remove :
      (j k : K) (m : BTreeMap K V) → get j (remove k m) ≡ (if eqb j k then none else get j m)
  unfolding get remove
  get-remove j k [] = ground arith
  get-remove j k ((i, w) ∷ m) =
      ground (arith, o.cmp_iff j k, o.cmp_iff k i, o.cmp_iff j i, get-remove j k m)

  pub ruleset map_laws = (get-nil, get-insert, get-remove)

  -- No key has two entries: so it is in every `BTreeMap`.
  abbrev pub NodupKeys : BTreeMap K V → Type κ
  NodupKeys [] = Unit
  NodupKeys ((k, v) ∷ m) = (get k m ≡ none) × NodupKeys m
