-- ===== src/Mcp/Tools/Names.antt =====
-- mcp/tools.rs: lists of names as the sets of them.
use ripmcp.Base.{◌≡◌, refl, true, false, ◌||◌, List, [], ◌∷◌, ◌++◌, All, arith, ap}
use ripmcp.Base.Order.{eqb, eqb_iff, list_ord, nat_ord}
use ripmcp.Base.Text.{Text}
use ripmcp.Mcp.Tools.{contains}

-- No text stands twice in the list.
abbrev pub Distinct : List Text → Type 0
Distinct [] = Unit
Distinct (x ∷ xs) = (contains xs x ≡ false) × Distinct xs

pub contains-append :
    (xs ys : List Text) (n : Text) → contains (xs ++ ys) n ≡ (contains xs n || contains ys n)
contains-append [] ys n = refl
contains-append (x ∷ xs) ys n = ground (arith, contains-append xs ys n)

pub Distinct-snoc :
    (xs : List Text) (n : Text) → Distinct xs → contains xs n ≡ false → Distinct (xs ++ (n ∷ []))
Distinct-snoc [] n d h = (refl, tt)
Distinct-snoc (x ∷ xs) n (fresh, d) h = (
  ground (arith, contains-append xs (n ∷ []) x, eqb_iff x n, eqb_iff n x),
  Distinct-snoc xs n d (ground arith),
)

-- What is in a part is in the whole, so what is not in the whole is not in the part.
pub absent_of_listed :
    (xs names : List Text) (n : Text)
    → All (λ x. contains names x ≡ true) xs
    → contains names n ≡ false
    → contains xs n ≡ false
absent_of_listed [] names n l h = refl
absent_of_listed (x ∷ xs) names n (m, l) h =
    ground (arith, absent_of_listed xs names n l h, eqb_iff n x)

pub listed_more :
    (xs names : List Text) (n : Text)
    → All (λ x. contains names x ≡ true) xs
    → All (λ x. contains (n ∷ names) x ≡ true) xs
listed_more [] names n l = tt
listed_more (x ∷ xs) names n (m, l) = (ground arith, listed_more xs names n l)

pub contains_self : (n : Text) (names : List Text) → contains (n ∷ names) n ≡ true
contains_self n names = ground (arith, eqb_iff n n)

pub eqb-contains :
    (names : List Text) (x r : Text) → eqb x r ≡ true → contains names x ≡ contains names r
eqb-contains names x r h = ap (contains names) ((eqb_iff x r).0 h)

pub apart_more :
    (xs rejected names : List Text) (r : Text)
    → All (λ x. contains names x ≡ true) xs
    → All (λ x. contains rejected x ≡ false) xs
    → contains names r ≡ false
    → All (λ x. contains (rejected ++ (r ∷ [])) x ≡ false) xs
apart_more [] rejected names r l a h = tt
apart_more (x ∷ xs) rejected names r (m, l) (b, a) h = (
  ground (arith, contains-append rejected (r ∷ []) x, eqb_iff x r, eqb-contains names x r),
  apart_more xs rejected names r l a h,
)
