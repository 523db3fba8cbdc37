-- ===== src/Cleanup/Plan/Order.antt =====
-- cleanup/plan.rs: the order of deletion, no directory before what it contains.
use ripmcp.Base.{◌≤◌, List, [], ◌∷◌, leb, arith, Bool-cases, inl, inr, All}
use ripmcp.Base.FilePath.{component_ord}
use ripmcp.Base.Order.{list_ord, nat_ord}
use ripmcp.Ownership.Model.{ResourceIdentity}
use ripmcp.Cleanup.Plan.{depth, insert_deep, sort_deep}

-- No identity lies within one that stands before it.
pub IsDeepFirst : List ResourceIdentity → Type 0
IsDeepFirst [] = Unit
IsDeepFirst (x ∷ xs) = All (λ y. depth y ≤ depth x) xs × IsDeepFirst xs

pub All-weaken :
    (P Q : ResourceIdentity → Type 0) (xs : List ResourceIdentity)
    → ((x : ResourceIdentity) → P x → Q x)
    → All P xs
    → All Q xs
All-weaken P Q [] f h = tt
All-weaken P Q (x ∷ xs) f (p, h) = (f x p, All-weaken P Q xs f h)

pub All-insert_deep :
    (P : ResourceIdentity → Type 0) (x : ResourceIdentity) (ys : List ResourceIdentity)
    → P x
    → All P ys
    → All P (insert_deep x ys)
unfolding insert_deep
All-insert_deep P x [] p h = (p, tt)
All-insert_deep P x (y ∷ ys) p (q, h) = elim (Bool-cases (leb (depth y) (depth x))) [
  | inl e ↦ rw e (p, (q, h))
  | inr e ↦ rw e (q, All-insert_deep P x ys p h)
]

pub All-sort_deep :
    (P : ResourceIdentity → Type 0) (xs : List ResourceIdentity) → All P xs → All P (sort_deep xs)
unfolding sort_deep
All-sort_deep P [] h = tt
All-sort_deep P (x ∷ xs) (p, h) = All-insert_deep P x (sort_deep xs) p (All-sort_deep P xs h)

IsDeepFirst-insert_deep :
    (x : ResourceIdentity) (ys : List ResourceIdentity)
    → IsDeepFirst ys
    → IsDeepFirst (insert_deep x ys)
unfolding insert_deep IsDeepFirst
IsDeepFirst-insert_deep x [] h = (tt, tt)
IsDeepFirst-insert_deep x (y ∷ ys) (h, hs) = elim (Bool-cases (leb (depth y) (depth x))) [
  | inl e ↦
      let below : depth y ≤ depth x = ground arith in
      rw e ((below, All-weaken _ _ ys (λ z k. omega (arith, k, below)) h), (h, hs))
  | inr e ↦ rw e (
    All-insert_deep (λ z. depth z ≤ depth y) x ys (ground arith) h,
    IsDeepFirst-insert_deep x ys hs,
  )
]

pub IsDeepFirst-sort_deep : (xs : List ResourceIdentity) → IsDeepFirst (sort_deep xs)
unfolding sort_deep IsDeepFirst
IsDeepFirst-sort_deep [] = tt
IsDeepFirst-sort_deep (x ∷ xs) = IsDeepFirst-insert_deep x (sort_deep xs) (IsDeepFirst-sort_deep xs)
