-- ===== src/Scanner/Roots.antt =====
-- scanner/src/index_roots.rs: the roots that the settings name, and the paths of the index against
-- the paths of the disk.
use cortex_engine.Common.{
  String, Bool, true, false, ◌&&◌, ◌||◌, not, Option, none, some, List, [], ◌∷◌, ◌++◌, ◌==◌,
  if◌then◌else◌, any, starts_with, unwrap_or, find?, is_some, text_is_empty, contains, ◌+++◌,
}
use cortex_engine.Common.Chars.{forward_slashes, split, trim, strip_prefix}
use cortex_engine.Common.FilePath.{file_name, join_path, strip_path}
use cortex_engine.Scanner.Yaml.{
  Value, null, bool, number, text, sequence, mapping, get, get_text, as_str, as_bool, values_of,
  entries_of,
}

abbrev pub dangerous_parts : List String
dangerous_parts = ".git" ∷ "node_modules" ∷ "library" ∷ "temp" ∷ []

abbrev pub external_root_prefix : String
external_root_prefix = "@external"

pub record IndexRoot : Type 0 where
  pub db_root : String
  pub source_path : String
  pub external : Bool
  pub alias : Option String

unfoldable pub has_dangerous_part : String → Bool
has_dangerous_part path = any (λ part. contains part dangerous_parts) (split 47 path)

unfoldable pub normalize_path_text : String → String
normalize_path_text path = let s = forward_slashes path in if s == "." then "" else s

-- What a root of the settings says: its text, whether it is external, and its alias.
abbrev pub root_text : Value → Option (String × Bool × Option String)
root_text null = none
root_text (bool b) = none
root_text (number n) = none
root_text (text s) = some (s, false, none)
root_text (sequence vs) = none
root_text (mapping es) = elim (get_text "path" (entries_of es)) [
  | none ↦ none
  | some path ↦ elim (as_str path) [
    | none ↦ none
    | some s ↦ some (
      s,
      elim (get_text "external" (entries_of es)) [
        | none ↦ false
        | some v ↦ unwrap_or (as_bool v) false
      ],
      elim (get_text "alias" (entries_of es)) [ none ↦ none | some v ↦ as_str v ],
    )
  ]
]

-- The trimmed alias, unless it is blank, and else the name of the target.
unfoldable pub alias_or_name : Option String → String → Option String
alias_or_name none target = file_name target
alias_or_name (some raw) target =
    let alias = trim raw in if text_is_empty alias then file_name target else some alias

abbrev forbidden_in_alias : List String
forbidden_in_alias = "/" ∷ "\\" ∷ ":" ∷ "*" ∷ "?" ∷ "\"" ∷ "<" ∷ ">" ∷ "|" ∷ []

unfoldable pub normalize_alias : Option String → String → Option String
unfolding alias_or_name
normalize_alias raw_alias target = elim (alias_or_name raw_alias target) [
  | none ↦ none
  | some alias ↦ if any (λ c. is_some (find? alias c)) forbidden_in_alias then none else some alias
]

-- `path.canonicalize()`, and the path itself where that fails.
abbrev pub canonical : (String → Option String) → String → String
canonical canonicalize path = unwrap_or (canonicalize path) path

-- `canonicalize` is the file system's answer, `to_lowercase` the standard library's table, and `same`
-- the equality of settings values.
module _ (canonicalize : String → Option String) (to_lowercase : String → String)
    (same : Value → Value → Bool) where
  -- The root of the target once it is resolved.
  unfoldable pub external_root : Option String → String → Option IndexRoot
  unfolding normalize_alias
  external_root alias target = elim (normalize_alias alias target) [
    | none ↦ none
    | some root_alias ↦
        if has_dangerous_part (to_lowercase (unwrap_or (file_name target) ""))
        then none
        else some (record {
          db_root = external_root_prefix +++ ("/" +++ root_alias);
          source_path = target;
          external = true;
          alias = some root_alias;
        })
  ]

  unfoldable pub internal_root : String → String → Option IndexRoot
  unfolding has_dangerous_part normalize_path_text
  internal_root workspace target = elim (strip_path target workspace) [
    | none ↦ none
    | some rel ↦
        let path_text = normalize_path_text rel in
        let db_root = if text_is_empty path_text then "." else path_text in
        if not (db_root == ".") && has_dangerous_part (to_lowercase db_root)
        then none
        else some
            (record { db_root = db_root; source_path = target; external = false; alias = none })
  ]

  unfoldable pub parse_root : String → Value → Option IndexRoot
  unfolding external_root internal_root
  parse_root workspace root = elim (root_text root) [
    | none ↦ none
    | some (raw_text, external, alias) ↦
        let trimmed = trim raw_text in
        let target = canonical canonicalize (join_path workspace trimmed) in
        if text_is_empty trimmed || is_some (find? trimmed "*") || is_some (find? trimmed "?")
        then none
        else if external
        then external_root alias target
        else internal_root workspace target
  ]

  unfoldable pub unique_values : List Value → List Value → List Value
  unique_values unique [] = unique
  unique_values unique (v ∷ vs) =
      if any (same v) unique then unique_values unique vs else unique_values (unique ++ v ∷ []) vs

  abbrev workspace_root : List Value
  workspace_root = text "." ∷ []

  abbrev or_workspace : List Value → List Value
  or_workspace [] = workspace_root
  or_workspace (v ∷ vs) = v ∷ vs

  abbrev pub roots_of : Value → List Value
  roots_of null = workspace_root
  roots_of (bool b) = workspace_root
  roots_of (number n) = workspace_root
  roots_of (text s) = text s ∷ []
  roots_of (sequence vs) = or_workspace (unique_values [] (values_of vs))
  roots_of (mapping es) = mapping es ∷ []

  unfoldable pub effective_index_roots : Value → List Value
  effective_index_roots settings =
      elim (get "index_roots" (unwrap_or (get "indexing_rules" settings) null)) [
        | none ↦ workspace_root
        | some roots ↦ roots_of roots
      ]

  -- The loop: a root whose place in the index is taken is passed over.
  unfoldable pub collect_roots : String → List String → List Value → List IndexRoot
  unfolding parse_root
  collect_roots workspace seen [] = []
  collect_roots workspace seen (root ∷ roots) = elim (parse_root workspace root) [
    | none ↦ collect_roots workspace seen roots
    | some parsed ↦
        let kept = collect_roots workspace (seen ++ parsed.db_root ∷ []) roots in
        let passed = collect_roots workspace seen roots in
        if contains parsed.db_root seen then passed else parsed ∷ kept
  ]

  unfoldable pub normalize_configured_index_roots : String → Value → List IndexRoot
  unfolding collect_roots effective_index_roots
  normalize_configured_index_roots workspace settings =
      collect_roots (canonical canonicalize workspace) [] (effective_index_roots settings)

  unfoldable pub source_under : List IndexRoot → String → Option String
  source_under [] db_text = none
  source_under (root ∷ roots) db_text =
      let rest = source_under roots db_text in
      if not root.external
      then rest
      else if db_text == root.db_root
      then some root.source_path
      else elim (strip_prefix db_text (root.db_root +++ "/")) [
        | none ↦ rest
        | some path ↦ some (join_path root.source_path path)
      ]

  unfoldable pub source_path_for_index_path : String → Value → String → Option String
  unfolding source_under normalize_configured_index_roots
  source_path_for_index_path workspace settings db_path =
      let db_text = forward_slashes db_path in
      if not (starts_with db_text (external_root_prefix +++ "/"))
      then some (join_path workspace db_path)
      else source_under (normalize_configured_index_roots workspace settings) db_text

  unfoldable pub db_under : List IndexRoot → String → Option String
  unfolding normalize_path_text
  db_under [] source = none
  db_under (root ∷ roots) source =
      let rest = db_under roots source in
      elim (strip_path source (canonical canonicalize root.source_path)) [
        | none ↦ rest
        | some rel ↦
            let rel_text = normalize_path_text rel in
            if root.db_root == "."
            then some rel_text
            else some (
                if text_is_empty rel_text
                then root.db_root
                else root.db_root +++ ("/" +++ rel_text))
      ]

  unfoldable pub db_path_for_source_path : String → Value → String → Option String
  unfolding db_under normalize_configured_index_roots
  db_path_for_source_path workspace settings source_path =
      db_under (normalize_configured_index_roots workspace settings)
        (canonical canonicalize source_path)
