-- ===== src/Watcher/Naming.antt =====
-- watcher/src/common.rs and index.rs: what the indexer derives from a path and a text alone.
use cortex_engine.Common.{
  ◌≡◌, refl, String, Bool, false, ◌&&◌, ◌||◌, not, Option, none, some, List, [], ◌∷◌, ◌==◌, ◌+++◌,
  if◌then◌else◌, starts_with, find?, is_some, unwrap_or, eqb, take_chars, text_is_empty, map,
}
use Prim.Native.Char.{Char, code}
use cortex_engine.Common.Chars.{forward_slashes, split, ends_with, strip_prefix, trim_matches}
use cortex_engine.Common.FilePath.{extension}
use cortex_engine.Scanner.Yaml.{Value, as_str, get_in, texts}
use cortex_engine.Scanner.Filters.{
  is_supported_extension, should_include, should_ignore, sequence_or, mapping_or_empty,
}
use cortex_engine.Storage.Records.{NodeRecord}

abbrev newline : Char
newline = "\n"

-- `raw.replace("\r\n", "\n")`.
unfoldable pub unix_lines : String → String
unix_lines String.[] = String.[]
unix_lines (String.◌∷◌ c String.[]) = String.◌∷◌ c String.[]
unix_lines (String.◌∷◌ c (String.◌∷◌ d s)) =
    let after = unix_lines s in
    let rest = unix_lines (String.◌∷◌ d s) in
    if eqb (code c) 13 && eqb (code d) 10 then String.◌∷◌ newline after else String.◌∷◌ c rest

-- What follows the first place of a text in another.
unfoldable pub after_first : String → String → Option String
unfolding strip_prefix
after_first String.[] t = strip_prefix String.[] t
after_first (String.◌∷◌ c s) t =
    let rest = after_first s t in
    elim (strip_prefix (String.◌∷◌ c s) t) [ none ↦ rest | some after ↦ some after ]

unfoldable pub strip_frontmatter : String → String
unfolding after_first strip_prefix
strip_frontmatter content = elim (strip_prefix content "---\n") [
  | none ↦ content
  | some rest ↦ unwrap_or (after_first rest "\n---\n") content
]

-- `to_lowercase` is the standard library's table.
unfoldable pub file_extension : (String → String) → String → String
file_extension to_lowercase path = elim (extension path) [ none ↦ "" | some ext ↦ to_lowercase ext ]

unfoldable pub should_track_path :
    (String → String) → (String → String → Bool) → String → Value → List String → Bool
unfolding file_extension
should_track_path to_lowercase glob rel_path settings ignore_patterns =
    is_supported_extension ("." +++ file_extension to_lowercase rel_path)
    && (should_include glob rel_path settings && not (should_ignore glob rel_path ignore_patterns))

-- The first part of a path that has more than one.
abbrev first_part : List String → Option String
first_part [] = none
first_part (p ∷ []) = none
first_part (p ∷ q ∷ ps) = some p

unfoldable pub vector_prefix_for_path : String → String
vector_prefix_for_path rel_path = elim (first_part (split 47 rel_path)) [
  | none ↦ "root"
  | some part ↦ if starts_with part "." then "root" else part
]

unfoldable pub category_for : String → String
category_for rel_path =
    if is_some (find? rel_path "skills/")
    then "SKILL"
    else if starts_with rel_path ".cortex/"
    then "RULE"
    else "SOURCE"

-- One of the paths of a module is the path's.
unfoldable pub in_paths : String → List String → Bool
in_paths norm_path [] = false
in_paths norm_path (path ∷ paths) =
    let rest = in_paths norm_path paths in
    let normalized = trim_matches 47 (forward_slashes path) in
    if text_is_empty normalized
    then rest
    else starts_with norm_path (normalized +++ "/") || ends_with norm_path normalized || rest

-- The first module of the settings that has the path; a name that is no text is passed over.
unfoldable pub module_of : String → List (Value × Value) → Option String
unfolding in_paths
module_of norm_path [] = none
module_of norm_path ((name, paths) ∷ modules) =
    let rest = module_of norm_path modules in
    elim (as_str name) [
      | none ↦ rest
      | some module_name ↦
          if in_paths norm_path (texts (sequence_or (some paths) []))
          then some module_name
          else rest
    ]

unfoldable pub module_name_for : String → Value → String
unfolding module_of
module_name_for rel_path settings =
    let norm_path = forward_slashes rel_path in
    elim (module_of norm_path (mapping_or_empty (get_in "indexing_rules" "modules" settings))) [
      | none ↦ unwrap_or (first_part (split 47 norm_path)) "root"
      | some name ↦ name
    ]

-- A text for the vectors with where it comes from; the record's fields `meta` are in it.
pub record VectorItem : Type 0 where
  pub id : String
  pub content : String
  pub module_name : String
  pub file : String
  pub node_type : String
  pub category : String

unfoldable pub item_text : String → String → NodeRecord → String
item_text category clean_text node =
    (node.node_type +++ (" " +++ (node.fqn +++ "\n")))
    +++ (elim node.signature [ none ↦ "" | some signature ↦ "Sig: " +++ (signature +++ "\n") ]
        +++ (if category == "RULE" then clean_text else take_chars 1200 node.raw_body))

unfoldable pub build_vector_items : String → String → String → List NodeRecord → List VectorItem
unfolding item_text category_for
build_vector_items rel_path module_name clean_source nodes =
    map
      (λ (node : NodeRecord). record {
        id = node.id;
        content = item_text (category_for rel_path) (take_chars 1200 clean_source) node;
        module_name = module_name;
        file = rel_path;
        node_type = node.node_type;
        category = category_for rel_path;
      })
      nodes

namings :
    (category_for ".cortex/skills/a.md" ≡ "SKILL")
    × (vector_prefix_for_path "src/a.py" ≡ "src")
    × (vector_prefix_for_path ".github/a.md" ≡ "root")
    × (strip_frontmatter "---\nname: x\n---\nbody" ≡ "body")
    × (unix_lines "a\r\nb\r" ≡ "a\nb\r")
unfolding category_for vector_prefix_for_path strip_frontmatter unix_lines split
namings = (refl, refl, refl, refl, refl)
