-- ===== src/Base/Order.antt =====
-- Rust's `Ord`, as far as ordered maps use it, with the instances for numbers and for lists.
use Prim.Native.Nat.{ℕ, compare, Ordering}
use mathlib.Core.Path.{◌≡◌, refl}
use mathlib.Core.Logic.{◌↔◌}
use mathlib.Core.Bool.{Bool, true, false}
use mathlib.Core.List.{List, [], ◌∷◌}
use native.Mathlib.Omega.{arith}

pub record Ord {ℓ} (A : Type ℓ) : Type ℓ where
  pub cmp : A → A → Ordering
  pub cmp_iff : (a b : A) → (cmp a b ≡ Ordering.eq) ↔ (a ≡ b)

abbrev pub then_cmp : Ordering → Ordering → Ordering
then_cmp Ordering.eq later = later
then_cmp Ordering.lt later = Ordering.lt
then_cmp Ordering.gt later = Ordering.gt

module _ {ℓ} {A : Type ℓ} ⦃o : Ord A⦄ where
  -- Rust's `==`, which agrees with `cmp`.
  abbrev pub eqb : A → A → Bool
  eqb a b = elim (o.cmp a b) [ Ordering.eq ↦ true | _ ↦ false ]

  pub eqb_iff : (a b : A) → (eqb a b ≡ true) ↔ (a ≡ b)
  eqb_iff a b = ground (arith, o.cmp_iff a b)

  -- Lexicographic order.
  abbrev pub cmp_list : List A → List A → Ordering
  cmp_list [] [] = Ordering.eq
  cmp_list [] (b ∷ bs) = Ordering.lt
  cmp_list (a ∷ as') [] = Ordering.gt
  cmp_list (a ∷ as') (b ∷ bs) = then_cmp (o.cmp a b) (cmp_list as' bs)

  pub cmp_list_iff : (xs ys : List A) → (cmp_list xs ys ≡ Ordering.eq) ↔ (xs ≡ ys)
  cmp_list_iff [] [] = (λ _. refl, λ _. refl)
  cmp_list_iff [] (b ∷ bs) = (λ h. cc, λ h. cc)
  cmp_list_iff (a ∷ as') [] = (λ h. cc, λ h. cc)
  cmp_list_iff (a ∷ as') (b ∷ bs) = ground (arith, o.cmp_iff a b, cmp_list_iff as' bs)

  instance abbrev pub list_ord : Ord (List A)
  list_ord = record { cmp = cmp_list; cmp_iff = cmp_list_iff }

pub cmp_ℕ_iff : (a b : ℕ) → (compare a b ≡ Ordering.eq) ↔ (a ≡ b)
cmp_ℕ_iff a b = ground arith

instance abbrev pub nat_ord : Ord ℕ
nat_ord = record { cmp = compare; cmp_iff = cmp_ℕ_iff }
