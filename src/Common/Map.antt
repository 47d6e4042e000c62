-- ===== src/Common/Map.antt =====
-- `BTreeMap<String, V>`: an association list that `insert` keeps in the order of the keys. Where the
-- source has a `HashMap` and never depends on the order of iteration, the same list serves.
use Prim.Native.Nat.{Ordering}
use Prim.Native.String.{String, compare}
use mathlib.Core.Path.{◌≡◌, refl}
use mathlib.Core.Logic.{◌⊎◌}
use mathlib.Core.List.{List, [], ◌∷◌}
use mathlib.Core.Option.{Option, none, some}
use native.Mathlib.Omega.{arith}
use text.Mathlib.Text.{◌==◌}
use text.Mathlib.TextEquality.{eq_iff, path_by_compare}
use package.cortex_engine.Common.Tests.{if◌then◌else◌, map_option}

abbrev pub Map {ℓ} : Type ℓ → Type ℓ
Map V = List (String × V)

module _ {ℓ} {V : Type ℓ} where
  -- `map.get(k)`.
  unfoldable pub lookup : String → Map V → Option V
  lookup key [] = none
  lookup key ((name, value) ∷ rest) = if name == key then some value else lookup key rest

  -- `map.insert(k, v)`.
  unfoldable pub insert : String → V → Map V → Map V
  insert k v [] = (k, v) ∷ []
  insert k v ((j, w) ∷ m) = elim (compare k j) [
    | Ordering.lt ↦ (k, v) ∷ (j, w) ∷ m
    | Ordering.eq ↦ (k, v) ∷ m
    | Ordering.gt ↦ (j, w) ∷ insert k v m
  ]

  -- `map.remove(k)`.
  unfoldable pub remove : String → Map V → Map V
  remove k [] = []
  remove k ((j, v) ∷ m) = let rest = remove k m in if j == k then rest else (j, v) ∷ rest

  pub lookup-insert :
      (key name : String) (value : V) (m : Map V)
      → lookup name (insert key value m) ≡ (if key == name then some value else lookup name m)
  unfolding insert lookup
  lookup-insert key name value [] = refl
  lookup-insert key name value ((head, w) ∷ m) = ground (
    arith,
    lookup-insert key name value m,
    path_by_compare key head,
    eq_iff head name,
    eq_iff key name,
  )

  pub lookup-remove :
      (k j : String) (m : Map V) → lookup j (remove k m) ≡ (if k == j then none else lookup j m)
  unfolding lookup remove
  lookup-remove k j [] = ground arith
  lookup-remove k j ((i, w) ∷ m) =
      ground (arith, eq_iff k j, eq_iff i k, eq_iff i j, lookup-remove k j m)

-- A function applied to every value in place, as a loop over `values_mut()` does.
module _ {ℓ κ} {V : Type ℓ} {W : Type κ} where
  unfoldable pub map_values : (V → W) → Map V → Map W
  map_values f [] = []
  map_values f ((k, v) ∷ m) = (k, f v) ∷ map_values f m

  pub lookup-map_values :
      (f : V → W) (k : String) (m : Map V) → lookup k (map_values f m) ≡ map_option f (lookup k m)
  unfolding lookup map_values
  lookup-map_values f k [] = refl
  lookup-map_values f k ((j, v) ∷ m) = ground (arith, lookup-map_values f k m)

-- The two ways in which a lookup finds something after an insertion.
pub lookup-insert_cases {ℓ} :
    {V : Type ℓ} (k j : String) (v w : V) (m : Map V)
    → lookup j (insert k v m) ≡ some w
    → ((k ≡ j) × (v ≡ w)) ⊎ (lookup j m ≡ some w)
lookup-insert_cases k j v w m h = ground (arith, lookup-insert k j v m, eq_iff k j)

-- What a lookup finds among values that were mapped.
pub lookup-map_values-some {ℓ κ} :
    {V : Type ℓ} {W : Type κ} (f : V → W) (k : String) (m : Map V) (w : W)
    → lookup k (map_values f m) ≡ some w
    → (v : V) × (lookup k m ≡ some v) × (w ≡ f v)
lookup-map_values-some f k m w h = go (lookup k m) refl
  where
    go : (o : Option _) → lookup k m ≡ o → (v : _) × (lookup k m ≡ some v) × (w ≡ f v)
    go none e = absurd (ground (arith, lookup-map_values f k m))
    go (some v) e = (v, e, ground (arith, lookup-map_values f k m))
