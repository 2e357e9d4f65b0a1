-- ===== src/Mcp/Schemas.antt =====
-- crates/ruflo-mcp/src/dispatcher.rs: the JSON schemas of the arguments of the tools.
use ruflo_rust.Prelude.{ℕ, String, false, List, [], ◌∷◌, string_eq, ◌==◌, if◌then◌else◌}
use ruflo_rust.Json.{Value, str, bool, num, pos_int, object, array}

abbrev typed : String → Value
typed t = object (("type", str t) ∷ [])

abbrev text_key : Value
text_key = object (("type", str "string") ∷ ("minLength", num (pos_int 1)) ∷ [])

abbrev natural : ℕ → Value
natural least = object (("type", str "integer") ∷ ("minimum", num (pos_int least)) ∷ [])

abbrev sleep_schema : Value
sleep_schema =
    object (
      ("type", str "integer") ∷ ("minimum", num (pos_int 0)) ∷ ("maximum", num (pos_int 5000)) ∷ [])

abbrev closed_schema : List (String × Value) → Value
closed_schema properties = object (
    ("type", str "object")
    ∷ ("properties", object properties)
    ∷ ("additionalProperties", bool false)
    ∷ [])

abbrev requiring : List (String × Value) → List Value → Value
requiring properties required = object (
    ("type", str "object")
    ∷ ("properties", object properties)
    ∷ ("required", array required)
    ∷ ("additionalProperties", bool false)
    ∷ [])

unfoldable pub input_schema_for : String → Value
input_schema_for name =
    if name == "agent_spawn"
    then closed_schema (("role", typed "string") ∷ ("sleep_ms", sleep_schema) ∷ [])
    else if name == "memory_store"
    then requiring
        (("key", text_key)
          ∷ ("value", object [])
          ∷ ("namespace", typed "string")
          ∷ ("type", typed "string")
          ∷ ("provenance_type", typed "string")
          ∷ ("tags", object (("type", str "array") ∷ ("items", typed "string") ∷ []))
          ∷ ("upsert", typed "boolean")
          ∷ [])
        (str "key" ∷ str "value" ∷ [])
    else if name == "memory_retrieve"
    then requiring (("key", text_key) ∷ ("namespace", typed "string") ∷ []) (str "key" ∷ [])
    else if name == "memory_search"
    then requiring
        (("query", text_key)
          ∷ ("namespace", typed "string")
          ∷ ("limit", natural 0)
          ∷ ("dimension", natural 1)
          ∷ ("sleep_ms", sleep_schema)
          ∷ [])
        (str "query" ∷ [])
    else closed_schema []
