-- ===== src/Mcp/Catalog/Builders.antt =====
-- catalog.rs: the builders of a tool and of its schema.
use cortex_engine.Common.{String, Option, none, some, List, [], ◌∷◌, ◌++◌, map}
use cortex_engine.Mcp.Json.{Json, text, array_of, object}

-- The entry of an optional description, and of an optional default.
abbrev described : Option String → List (String × Json)
described none = []
described (some description) = ("description", text description) ∷ []

abbrev defaulted : Option Json → List (String × Json)
defaulted none = []
defaulted (some value) = ("default", value) ∷ []

abbrev enumerated : Option (List String) → List (String × Json)
enumerated none = []
enumerated (some values) = ("enum", array_of (map (λ value. text value) values)) ∷ []

unfoldable pub string_property : Option String → Option (List String) → Option Json → Json
unfolding object
string_property description enum_values default =
    object (
      ("type", text "string") ∷ described description
      ++ enumerated enum_values
      ++ defaulted default)

unfoldable pub integer_property : Option String → Option Json → Json
unfolding object
integer_property description default =
    object (("type", text "integer") ∷ described description ++ defaulted default)

unfoldable pub boolean_property : Option String → Option Json → Json
unfolding object
boolean_property description default =
    object (("type", text "boolean") ∷ described description ++ defaulted default)

unfoldable pub array_string_property : Option String → Json
unfolding object
array_string_property description = object (
    ("type", text "array")
    ∷ ("items", object (("type", text "string") ∷ []))
    ∷ described description)

unfoldable pub object_property : Option String → Json
unfolding object
object_property description = object (("type", text "object") ∷ described description)

abbrev propertied : Option (List (String × Json)) → List (String × Json)
propertied none = []
propertied (some properties) = ("properties", object properties) ∷ []

abbrev needed : Option (List String) → List (String × Json)
needed none = []
needed (some required) = ("required", array_of (map (λ value. text value) required)) ∷ []

unfoldable pub input_schema : Option (List (String × Json)) → Option (List String) → Json
unfolding object
input_schema properties required =
    object (("type", text "object") ∷ propertied properties ++ needed required)

unfoldable pub tool : String → String → Option (List (String × Json)) → Option (List String) → Json
unfolding object input_schema
tool name description properties required = object (
    ("name", text name)
    ∷ ("description", text description)
    ∷ ("inputSchema", input_schema properties required)
    ∷ [])
