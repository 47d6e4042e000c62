-- ===== src/Relay/Paths.antt =====
-- relay.rs: the normal form of a claimed path, on Unix (`cfg!(windows)` is false).
use cortex_engine.Common.{
  ◌≡◌, refl, String, Bool, ◌||◌, Option, none, some, List, [], ◌∷◌, ◌==◌, starts_with,
  if◌then◌else◌, any, contains, join,
}
use cortex_engine.Common.FilePath.{clean_path}
use cortex_engine.Common.Chars.{trim, split, forward_slashes, to_ascii_lowercase, ends_with}

abbrev pub unity_risk_suffixes : List String
unity_risk_suffixes = ".unity" ∷ ".prefab" ∷ ".asset" ∷ ".meta" ∷ []

abbrev pub unity_risk_exact_paths : List String
unity_risk_exact_paths = "packages/manifest.json" ∷ "packages/packages-lock.json" ∷ []

abbrev pub unity_risk_prefixes : List String
unity_risk_prefixes = "projectsettings/" ∷ []

unfoldable pub is_unity_risk_normalized : String → Bool
is_unity_risk_normalized path =
    let normalized = to_ascii_lowercase path in
    any (λ suffix. ends_with normalized suffix) unity_risk_suffixes
    || contains normalized unity_risk_exact_paths
    || any (λ prefix. starts_with normalized prefix) unity_risk_prefixes

-- A path that names nothing is dropped.
unfoldable pub some_path : String → Option String
some_path s = if s == "" || s == "." then none else some s

lower_risky : String → String
lower_risky s = if is_unity_risk_normalized s then to_ascii_lowercase s else s

unfoldable pub normalize_file_path : String → Option String
unfolding lower_risky some_path clean_path
normalize_file_path path =
    let trimmed = trim path in
    if trimmed == "" || trimmed == "."
    then none
    else some_path (lower_risky (forward_slashes (clean_path trimmed)))

-- The loop of `normalize_files`: `seen` is the set of the paths already returned.
unfoldable pub normalize_from : List String → List String → List String
normalize_from seen [] = []
normalize_from seen (f ∷ fs) = elim (normalize_file_path f) [
  | none ↦ normalize_from seen fs
  | some p ↦
      let old = normalize_from seen fs in
      let new = normalize_from (p ∷ seen) fs in if contains p seen then old else p ∷ new
]

unfoldable pub normalize_files : List String → List String
unfolding normalize_from
normalize_files files = normalize_from [] files

all_parts : Unit {0}
unfolding normalize_files normalize_file_path is_unity_risk_normalized trim split forward_slashes
    to_ascii_lowercase ends_with contains join
all_parts = tt

normalizes :
    (normalize_files ("Assets/Foo.prefab" ∷ " assets//foo.prefab/ " ∷ "." ∷ "./a" ∷ "/x/./y" ∷ [])
      ≡ "assets/foo.prefab" ∷ "./a" ∷ "/x/y" ∷ [])
unfolding all_parts
normalizes = refl
