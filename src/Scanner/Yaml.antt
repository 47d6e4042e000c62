-- ===== src/Scanner/Yaml.antt =====
-- `serde_yaml::Value`, the documented type of the settings, less its tags. A number is its text.
use cortex_engine.Common.{
  String, Bool, false, Option, none, some, List, [], ◌∷◌, ◌==◌, if◌then◌else◌,
}

mutual
  pub data Value : Type 0 where
    null : Value
    bool : Bool → Value
    number : String → Value
    text : String → Value
    sequence : Values → Value
    mapping : Entries → Value

  pub data Values : Type 0 where
    no_values : Values
    value : Value → Values → Values

  pub data Entries : Type 0 where
    no_entries : Entries
    entry : Value → Value → Entries → Entries

abbrev pub values_of : Values → List Value
values_of no_values = []
values_of (value v vs) = v ∷ values_of vs

abbrev pub to_values : List Value → Values
to_values [] = no_values
to_values (v ∷ vs) = value v (to_values vs)

abbrev pub entries_of : Entries → List (Value × Value)
entries_of no_entries = []
entries_of (entry k v es) = (k, v) ∷ entries_of es

abbrev pub to_entries : List (Value × Value) → Entries
to_entries [] = no_entries
to_entries ((k, v) ∷ es) = entry k v (to_entries es)

abbrev pub as_str : Value → Option String
as_str null = none
as_str (bool b) = none
as_str (number n) = none
as_str (text s) = some s
as_str (sequence vs) = none
as_str (mapping es) = none

abbrev pub as_bool : Value → Option Bool
as_bool null = none
as_bool (bool b) = some b
as_bool (number n) = none
as_bool (text s) = none
as_bool (sequence vs) = none
as_bool (mapping es) = none

abbrev pub as_sequence : Value → Option (List Value)
as_sequence null = none
as_sequence (bool b) = none
as_sequence (number n) = none
as_sequence (text s) = none
as_sequence (sequence vs) = some (values_of vs)
as_sequence (mapping es) = none

abbrev pub as_mapping : Value → Option (List (Value × Value))
as_mapping null = none
as_mapping (bool b) = none
as_mapping (number n) = none
as_mapping (text s) = none
as_mapping (sequence vs) = none
as_mapping (mapping es) = some (entries_of es)

-- The value is the text.
abbrev pub is_text : String → Value → Bool
is_text s v = elim (as_str v) [ none ↦ false | some t ↦ t == s ]

-- `map.get(key)` for a key that is a text.
unfoldable pub get_text : String → List (Value × Value) → Option Value
get_text key [] = none
get_text key ((k, v) ∷ es) = let rest = get_text key es in if is_text key k then some v else rest

-- `value.get(key)`: none where the value is no mapping.
unfoldable pub get : String → Value → Option Value
unfolding get_text
get key v = elim (as_mapping v) [ none ↦ none | some es ↦ get_text key es ]

-- `value.get(a).and_then(|v| v.get(b))`.
unfoldable pub get_in : String → String → Value → Option Value
unfolding get
get_in a b v = elim (get a v) [ none ↦ none | some rules ↦ get b rules ]

-- The texts of a list of values; what is no text is passed over.
unfoldable pub texts : List Value → List String
texts [] = []
texts (v ∷ vs) = let rest = texts vs in elim (as_str v) [ none ↦ rest | some s ↦ s ∷ rest ]
