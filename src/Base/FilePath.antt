-- ===== src/Base/FilePath.antt =====
-- `std::path::Path` by its components.
use Prim.Native.Nat.{ℕ, Ordering}
use mathlib.Core.Path.{◌≡◌, refl, sym, ap, ◌∙◌}
use mathlib.Core.Logic.{◌↔◌}
use mathlib.Core.Bool.{Bool, true, false, ◌&&◌}
use mathlib.Core.List.{List, [], ◌∷◌}
use ripmcp.Base.Tests.{◌==◌, if◌then◌else◌}
use ripmcp.Base.Lists.{any}
use ripmcp.Base.Order.{Ord, eqb, cmp_list, cmp_list_iff, list_ord, nat_ord}
use ripmcp.Base.Text.{Text, contains_char}

pub data Component : Type 0 where
  root_dir cur_dir parent_dir : Component
  normal : Text → Component

-- The order of components: by kind, then by name.
abbrev pub sort_key : Component → List ℕ
sort_key root_dir = 1 ∷ []
sort_key cur_dir = 2 ∷ []
sort_key parent_dir = 3 ∷ []
sort_key (normal s) = 4 ∷ s

abbrev of_sort_key : List ℕ → Component
of_sort_key [] = cur_dir
of_sort_key (k ∷ s) =
    if k == 1 then root_dir else if k == 2 then cur_dir else if k == 3 then parent_dir else normal s

of_sort_key-sort_key : (c : Component) → of_sort_key (sort_key c) ≡ c
of_sort_key-sort_key root_dir = refl
of_sort_key-sort_key cur_dir = refl
of_sort_key-sort_key parent_dir = refl
of_sort_key-sort_key (normal s) = refl

abbrev pub cmp_component : Component → Component → Ordering
cmp_component c d = cmp_list (sort_key c) (sort_key d)

pub cmp_component_iff : (c d : Component) → (cmp_component c d ≡ Ordering.eq) ↔ (c ≡ d)
cmp_component_iff c d = (
  λ e.
      sym (of_sort_key-sort_key c)
      ∙ (ap of_sort_key ((cmp_list_iff (sort_key c) (sort_key d)).0 e) ∙ of_sort_key-sort_key d),
  λ e. (cmp_list_iff (sort_key c) (sort_key d)).1 (ap sort_key e),
)

instance abbrev pub component_ord : Ord Component
component_ord = record { cmp = cmp_component; cmp_iff = cmp_component_iff }

abbrev pub FilePath : Type 0
FilePath = List Component

abbrev pub is_absolute : FilePath → Bool
is_absolute (root_dir ∷ _) = true
is_absolute _ = false

abbrev pub is_parent_dir : Component → Bool
is_parent_dir parent_dir = true
is_parent_dir _ = false

abbrev pub has_nul : Component → Bool
has_nul (normal s) = contains_char 0 s
has_nul _ = false

-- `path.as_os_str().as_encoded_bytes().contains(&0)`
abbrev pub contains_nul : FilePath → Bool
contains_nul = any has_nul

-- `path.starts_with(base)`, by whole components.
abbrev pub starts_with : FilePath → FilePath → Bool
starts_with path [] = true
starts_with [] (b ∷ base) = false
starts_with (c ∷ path) (b ∷ base) = eqb c b && starts_with path base
