-- ===== src/Api/Gemini.antt =====
-- The conversion of a tool's schema in lib/ai/llm/gemini-provider.ts. `upper` is `toUpperCase`.
pub mod Clean
pub mod Laws
pub mod Messages
pub mod Token
pub mod Request
pub mod Vertex
use semantic_layer_explore.Prelude.{
  String, Bool, true, false, Option, none, some, ◌==◌, if◌then◌else◌,
}
use semantic_layer_explore.Js.Json.{
  Json, null, boolean, number, string, array, object, Items, nil, cons, Fields, end, field,
}

-- The key `additionalProperties` is left out.
abbrev pub kept : String → Json → Option Json
kept key value = if key == "additionalProperties" then none else some value

abbrev pub put : String → Option Json → Fields → Fields
put key none rest = rest
put key (some value) rest = field key value rest

-- The value of the key `type`, where that is a text.
abbrev pub text_entry : (String → String) → String → String → Option Json
text_entry upper key text =
    if key == "type" then some (string (upper text)) else kept key (string text)

-- An object under the key `properties` keeps its keys, whatever they are.
abbrev pub object_entry : String → Fields → Fields → Option Json
object_entry key values fields =
    if key == "properties" then some (object values) else kept key (object fields)

module _ (upper : String → String) where
  unfoldable mutual
    -- `normalizeGeminiSchema`
    pub normalize_schema : Json → Json
    normalize_schema null = null
    normalize_schema (boolean b) = boolean b
    normalize_schema (number n) = number n
    normalize_schema (string s) = string s
    normalize_schema (array items) = array (normalize_items items)
    normalize_schema (object fs) = object (normalize_fields fs)

    pub normalize_items : Items → Items
    normalize_items nil = nil
    normalize_items (cons v rest) = cons (normalize_schema v) (normalize_items rest)

    -- The loop over the entries of a schema.
    pub normalize_fields : Fields → Fields
    normalize_fields end = end
    normalize_fields (field key v rest) = put key (normalize_entry key v) (normalize_fields rest)

    pub normalize_entry : String → Json → Option Json
    normalize_entry key null = kept key null
    normalize_entry key (boolean b) = kept key (boolean b)
    normalize_entry key (number n) = kept key (number n)
    normalize_entry key (string s) = text_entry upper key s
    normalize_entry key (array items) = kept key (array (normalize_items items))
    normalize_entry key (object fs) = object_entry key (normalize_values fs) (normalize_fields fs)

    -- The entries of `properties`.
    pub normalize_values : Fields → Fields
    normalize_values end = end
    normalize_values (field key v rest) = field key (normalize_schema v) (normalize_values rest)
