-- ===== src/Mcp/Json.antt =====
-- `serde_json::Value`, the documented type: an object keeps its keys in order. A number that is no
-- `u64` is its text.
use cortex_engine.Common.{ℕ, ◌≡◌, refl, ap, String, Bool, Option, none, some, List, [], ◌∷◌}
use cortex_engine.Common.Map.{Map, insert, lookup}

mutual
  pub data Json : Type 0 where
    null : Json
    boolean : Bool → Json
    natural : ℕ → Json
    other_number : String → Json
    text : String → Json
    array : Items → Json
    record_of : Fields → Json

  pub data Items : Type 0 where
    no_items : Items
    item : Json → Items → Items

  pub data Fields : Type 0 where
    no_fields : Fields
    field : String → Json → Fields → Fields

abbrev pub fields_of : Fields → Map Json
fields_of no_fields = []
fields_of (field k v fs) = (k, v) ∷ fields_of fs

abbrev pub to_fields : Map Json → Fields
to_fields [] = no_fields
to_fields ((k, v) ∷ m) = field k v (to_fields m)

abbrev pub to_items : List Json → Items
to_items [] = no_items
to_items (v ∷ vs) = item v (to_items vs)

abbrev pub array_of : List Json → Json
array_of vs = array (to_items vs)

abbrev pub as_object : Json → Option (Map Json)
as_object null = none
as_object (boolean b) = none
as_object (natural n) = none
as_object (other_number n) = none
as_object (text s) = none
as_object (array vs) = none
as_object (record_of fs) = some (fields_of fs)

abbrev pub as_str : Json → Option String
as_str null = none
as_str (boolean b) = none
as_str (natural n) = none
as_str (other_number n) = none
as_str (text s) = some s
as_str (array vs) = none
as_str (record_of fs) = none

abbrev pub as_u64 : Json → Option ℕ
as_u64 null = none
as_u64 (boolean b) = none
as_u64 (natural n) = some n
as_u64 (other_number n) = none
as_u64 (text s) = none
as_u64 (array vs) = none
as_u64 (record_of fs) = none

-- `value.get(key)`: none where the value is no object.
unfoldable pub get : String → Json → Option Json
unfolding lookup
get key v = elim (as_object v) [ none ↦ none | some m ↦ lookup key m ]

-- `value.get(key).and_then(Value::as_str)`, and the like for numbers.
unfoldable pub get_str : String → Json → Option String
unfolding get
get_str key v = elim (get key v) [ none ↦ none | some w ↦ as_str w ]

unfoldable pub get_u64 : String → Json → Option ℕ
unfolding get
get_u64 key v = elim (get key v) [ none ↦ none | some w ↦ as_u64 w ]

-- The entries put into an empty map, one after another.
unfoldable pub insert_all : List (String × Json) → Map Json → Map Json
unfolding insert
insert_all [] m = m
insert_all ((k, v) ∷ es) m = insert_all es (insert k v m)

-- `json!({ ... })`, and `object` of the catalogue.
unfoldable pub object : List (String × Json) → Json
unfolding insert_all
object entries = record_of (to_fields (insert_all entries []))

pub fields_of-to_fields : (m : Map Json) → fields_of (to_fields m) ≡ m
fields_of-to_fields [] = refl
fields_of-to_fields ((k, v) ∷ m) = ap (λ rest. (k, v) ∷ rest) (fields_of-to_fields m)

pub get-object :
    (key : String) (entries : List (String × Json))
    → get key (object entries) ≡ lookup key (insert_all entries [])
unfolding get object
get-object key entries = ap (lookup key) (fields_of-to_fields (insert_all entries []))
