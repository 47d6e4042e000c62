-- ===== src/Scanner/Settings.antt =====
-- scanner/src/settings.rs: the local settings merged into those of the workspace. A mapping keeps the
-- order of its keys. `same` is the equality of settings values.
use cortex_engine.Common.{
  Bool, Option, none, some, List, [], ◌∷◌, ◌++◌, if◌then◌else◌, any, unwrap_or,
}
use cortex_engine.Scanner.Yaml.{
  Value, sequence, mapping, is_text, to_values, to_entries, as_sequence, as_mapping, no_entries,
}

module _ (same : Value → Value → Bool) where
  -- `map.get(key)` and `map.insert(key, value)`: a key that is there keeps its place.
  unfoldable pub find_entry : Value → List (Value × Value) → Option Value
  find_entry key [] = none
  find_entry key ((k, v) ∷ es) = let rest = find_entry key es in if same k key then some v else rest

  unfoldable pub put_entry : Value → Value → List (Value × Value) → List (Value × Value)
  put_entry key v [] = (key, v) ∷ []
  put_entry key v ((k, w) ∷ es) =
      let rest = put_entry key v es in if same k key then (k, v) ∷ es else (k, w) ∷ rest

  -- The values of both lists, each once.
  unfoldable pub merge_lists : List Value → List Value → List Value
  merge_lists seen [] = seen
  merge_lists seen (v ∷ vs) =
      if any (same v) seen then merge_lists seen vs else merge_lists (seen ++ v ∷ []) vs

  -- The value that a key of the local rules gets.
  unfoldable pub merged_rule : Value → Value → List (Value × Value) → Value
  unfolding find_entry merge_lists
  merged_rule k v base = if is_text "index_roots" k then v else elim (find_entry k base) [
    | none ↦ v
    | some old ↦ elim (as_sequence old) [
      | none ↦ v
      | some base_list ↦ elim (as_sequence v) [
        | none ↦ v
        | some local_list ↦ sequence (to_values (merge_lists [] (base_list ++ local_list)))
      ]
    ]
  ]

  unfoldable pub merge_indexing_rules :
      List (Value × Value) → List (Value × Value) → List (Value × Value)
  unfolding put_entry merged_rule
  merge_indexing_rules base [] = base
  merge_indexing_rules base ((k, v) ∷ rules) =
      merge_indexing_rules (put_entry k (merged_rule k v base) base) rules

  -- The value that a key of the local settings gets.
  unfoldable pub merged_setting : Value → Value → List (Value × Value) → Value
  unfolding find_entry merge_indexing_rules
  merged_setting k v base =
      if is_text "indexing_rules" k
      then elim (as_mapping v) [
        | none ↦ v
        | some local_rules ↦ elim (find_entry k base) [
          | none ↦ v
          | some old ↦ elim (as_mapping old) [
            | none ↦ v
            | some base_rules ↦ mapping (to_entries (merge_indexing_rules base_rules local_rules))
          ]
        ]
      ]
      else v

  unfoldable pub merge_top_level :
      List (Value × Value) → List (Value × Value) → List (Value × Value)
  unfolding put_entry merged_setting
  merge_top_level base [] = base
  merge_top_level base ((k, v) ∷ local) =
      merge_top_level (put_entry k (merged_setting k v base) base) local

  -- `load_settings`, from what the two files hold where they can be read and parsed.
  unfoldable pub load_settings : Option Value → Option Value → Value
  unfolding merge_top_level
  load_settings settings local =
      let base = unwrap_or settings (mapping no_entries) in
      elim local [
        | none ↦ base
        | some local_value ↦ elim (as_mapping base) [
          | none ↦ base
          | some base_map ↦ elim (as_mapping local_value) [
            | none ↦ base
            | some local_map ↦ mapping (to_entries (merge_top_level base_map local_map))
          ]
        ]
      ]
