-- ===== src/Scanner/Filters.antt =====
-- scanner/src/filters.rs and ignores.rs: which relative paths are indexed. `glob pattern name` is the
-- answer of the globset library, and false where the pattern does not parse.
use cortex_engine.Common.{
  String, Bool, ◌&&◌, ◌||◌, not, Option, none, some, List, [], ◌∷◌, ◌++◌, ◌==◌, if◌then◌else◌, any,
  starts_with, unwrap_or, find?, is_some, text_is_empty,
}
use cortex_engine.Common.Chars.{forward_slashes, to_ascii_lowercase, split, trim, trim_matches}
use cortex_engine.Common.FilePath.{file_name}
use cortex_engine.Scanner.Yaml.{Value, text, get, get_in, texts, as_sequence, as_mapping, null}

abbrev pub supported_extensions : List String
supported_extensions =
    ".c" ∷ ".cpp" ∷ ".h" ∷ ".hpp" ∷ ".java" ∷ ".md" ∷ ".html" ∷ ".css" ∷ ".pdf" ∷ ".py" ∷ ".cs"
    ∷ ".ts" ∷ ".tsx" ∷ []

unfoldable pub is_supported_extension : String → Bool
is_supported_extension ext =
    any (λ e. to_ascii_lowercase e == to_ascii_lowercase ext) supported_extensions

abbrev pub default_ignores : List String
default_ignores =
    "node_modules" ∷ "__pycache__" ∷ ".git" ∷ ".venv" ∷ "venv" ∷ "dist" ∷ "build" ∷ ".gradle"
    ∷ ".idea" ∷ ".vscode" ∷ ".cortex" ∷ "target" ∷ ".next" ∷ "*.min.js" ∷ "*.min.css" ∷ "*.pyc"
    ∷ "*.class" ∷ "*.o" ∷ "*.obj" ∷ "*.exe" ∷ "*.out" ∷ "Library" ∷ "Temp" ∷ "Logs" ∷ "obj" ∷ []

-- The patterns of the lines of a `.gitignore`: no blank lines and no comments.
unfoldable pub gitignore_patterns : List String → List String
gitignore_patterns [] = []
gitignore_patterns (line ∷ lines) =
    let rest = gitignore_patterns lines in
    let trimmed = trim line in
    if not (text_is_empty trimmed) && not (starts_with trimmed "#")
    then trim_matches 47 trimmed ∷ rest
    else rest

-- `load_gitignore`, with the lines of the file where it can be read.
unfoldable pub load_gitignore : Option (List String) → List String
unfolding gitignore_patterns
load_gitignore none = default_ignores
load_gitignore (some lines) = default_ignores ++ gitignore_patterns lines

-- The values of a sequence in the settings, with those for where there is no sequence.
abbrev pub sequence_or : Option Value → List Value → List Value
sequence_or none default = default
sequence_or (some v) default = unwrap_or (as_sequence v) default

abbrev pub mapping_or_empty : Option Value → List (Value × Value)
mapping_or_empty none = []
mapping_or_empty (some v) = unwrap_or (as_mapping v) []

-- `load_ignore_patterns` of the watcher, and the same lines of `scan_files`: the paths that the
-- settings exclude, without slashes around them.
unfoldable pub excluded_paths : List String → List String
excluded_paths [] = []
excluded_paths (s ∷ ss) =
    let rest = excluded_paths ss in
    let trimmed = trim_matches 47 s in if text_is_empty trimmed then rest else trimmed ∷ rest

unfoldable pub load_ignore_patterns : Option (List String) → Value → List String
unfolding load_gitignore excluded_paths
load_ignore_patterns gitignore settings =
    load_gitignore gitignore
    ++ excluded_paths (texts (sequence_or (get_in "indexing_rules" "exclude_paths" settings) []))

module _ (glob : String → String → Bool) where
  unfoldable pub should_ignore : String → List String → Bool
  should_ignore rel_path patterns =
      let rel = forward_slashes rel_path in
      any (λ part. any (λ pattern. glob pattern part) patterns) (split 47 rel)
      || any (λ pattern. glob pattern rel) patterns

  -- The closure `matches` of `should_include`.
  unfoldable pub matches : String → String → String → Bool
  matches rel basename pattern =
      if is_some (find? pattern "**")
      then glob pattern rel
      else glob pattern rel || glob pattern basename

  -- A path of a module, and the paths of all of them.
  unfoldable pub in_module : String → Value × Value → Bool
  in_module rel (name, paths) =
      any (λ s. starts_with rel s || glob s rel) (texts (sequence_or (some paths) []))

  unfoldable pub should_include : String → Value → Bool
  unfolding matches in_module
  should_include rel_path settings =
      let rules = unwrap_or (get "indexing_rules" settings) null in
      let rel = forward_slashes rel_path in
      let basename = unwrap_or (file_name rel) "" in
      any (matches rel basename) (texts (sequence_or (get "config_whitelist" rules) []))
      || any (matches rel basename)
          (texts (sequence_or (get "include_paths" rules) (text "**" ∷ [])))
      || any (in_module rel) (mapping_or_empty (get "modules" rules))
