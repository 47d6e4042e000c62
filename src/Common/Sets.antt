-- ===== src/Common/Sets.antt =====
-- `BTreeSet<String>`: a list in increasing order without repetitions.
use Prim.Native.String.{String, compare}
use Prim.Native.Nat.{Ordering}
use mathlib.Core.Path.{◌≡◌, refl}
use mathlib.Core.Bool.{◌||◌}
use mathlib.Core.List.{List, [], ◌∷◌}
use native.Mathlib.Omega.{arith}
use text.Mathlib.Text.{◌==◌}
use text.Mathlib.TextEquality.{eq_iff, path_by_compare}
use package.cortex_engine.Common.Text.{contains}

-- `set.insert(s)`.
unfoldable pub set_insert : String → List String → List String
set_insert s [] = s ∷ []
set_insert s (x ∷ xs) =
    let rest = set_insert s xs in
    elim (compare s x) [ Ordering.lt ↦ s ∷ x ∷ xs | Ordering.eq ↦ x ∷ xs | Ordering.gt ↦ x ∷ rest ]

pub contains-set_insert :
    (t s : String) (xs : List String) → contains t (set_insert s xs) ≡ (s == t) || contains t xs
unfolding contains set_insert
contains-set_insert t s [] = refl
contains-set_insert t s (x ∷ xs) =
    ground (arith, contains-set_insert t s xs, path_by_compare s x, eq_iff s t, eq_iff x t)
