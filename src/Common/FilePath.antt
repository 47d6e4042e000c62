-- ===== src/Common/FilePath.antt =====
-- `std::path` on Unix, on texts: components, file names, joining and prefixes.
use Prim.Native.String.{String}
use mathlib.Core.Path.{◌≡◌, refl}
use mathlib.Core.Bool.{Bool, ◌||◌}
use mathlib.Core.List.{List, [], ◌∷◌}
use mathlib.Core.Option.{Option, none, some}
use text.Mathlib.Text.{◌==◌, starts_with}
use package.cortex_engine.Common.Tests.{if◌then◌else◌}
use package.cortex_engine.Common.Text.{◌+++◌, join}
use package.cortex_engine.Common.Lists.{last_or}
use package.cortex_engine.Common.Chars.{split, ends_with, rsplit_once}

-- The pieces of a path that `Path::components` keeps after the first: no empty one and no ".".
unfoldable pub kept_pieces : List String → List String
kept_pieces [] = []
kept_pieces (p ∷ ps) = let rest = kept_pieces ps in if p == "" || p == "." then rest else p ∷ rest

-- The path that `components().collect::<PathBuf>()` builds: "/" and a first "." are kept, repeated
-- and trailing separators are not.
unfoldable pub from_pieces : List String → String
unfolding kept_pieces
from_pieces [] = ""
from_pieces (p ∷ ps) =
    if p == "" then "/" +++ join "/" (kept_pieces ps) else join "/" (p ∷ kept_pieces ps)

unfoldable pub clean_path : String → String
unfolding from_pieces
clean_path s = from_pieces (split 47 s)

-- `Path::components`: "/" stands for the root, and only a first "." is kept.
unfoldable pub components : String → List String
unfolding kept_pieces
components s = elim (split 47 s) [
  | [] ↦ []
  | p ∷ ps ↦
      if starts_with s "/" then "/" ∷ kept_pieces ps else if p == "" then [] else p ∷ kept_pieces ps
]

abbrev pub is_absolute : String → Bool
is_absolute path = starts_with path "/"

-- `Path::join`.
unfoldable pub join_path : String → String → String
join_path base path =
    if is_absolute path
    then path
    else if base == "" || ends_with base "/"
    then base +++ path
    else base +++ ("/" +++ path)

-- `Path::file_name`: the last component, if it is a name.
unfoldable pub file_name : String → Option String
unfolding components
file_name path =
    let last = last_or "" (components path) in
    if last == "" || last == "/" || last == "." || last == ".." then none else some last

-- `Path::extension`: what stands behind the last dot of the name, unless the name begins with it.
unfoldable pub extension : String → Option String
unfolding file_name
extension path = elim (file_name path) [
  | none ↦ none
  | some name ↦ elim (rsplit_once 46 name) [
    | none ↦ none
    | some (stem, ext) ↦ if stem == "" then none else some ext
  ]
]

unfoldable pub strip_components : List String → List String → Option (List String)
strip_components parts [] = some parts
strip_components [] (q ∷ qs) = none
strip_components (p ∷ ps) (q ∷ qs) =
    let rest = strip_components ps qs in if p == q then rest else none

-- `Path::strip_prefix`, with the rest in the normal form.
unfoldable pub strip_path : String → String → Option String
unfolding components strip_components
strip_path path base = elim (strip_components (components path) (components base)) [
  | none ↦ none
  | some rest ↦ some (join "/" rest)
]

names :
    (file_name "a/b.py" ≡ some "b.py")
    × (extension "a/b.tar.gz" ≡ some "gz")
    × (extension "a/.gitignore" ≡ none)
    × (file_name "a/.." ≡ none)
unfolding file_name extension components split rsplit_once
names = (refl, refl, refl, refl)

joins :
    (join_path "/w" "a/b" ≡ "/w/a/b")
    × (join_path "/w" "/x" ≡ "/x")
    × (strip_path "/w/a/b" "/w" ≡ some "a/b")
    × (strip_path "/w2/a" "/w" ≡ none)
unfolding join_path strip_path components split join ends_with
joins = (refl, refl, refl, refl)
