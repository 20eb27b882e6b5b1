-- ===== src/Api/Gemini/Request.antt =====
-- lib/ai/gemini.ts: the request to Vertex AI and its response, and what
-- lib/ai/llm/gemini-provider.ts makes of them.
pub mod Settings
pub mod Calls
use semantic_layer_explore.Prelude.{
  ℕ, String, Bool, true, false, Option, none, some, List, [], ◌∷◌, ◌++◌, ◌==◌, map, or_else,
  if◌then◌else◌,
}
use mathlib.Core.Option
use semantic_layer_explore.Js.Number.{Number}
use semantic_layer_explore.Js.Json.{
  Json, null, string, number, object, array, Fields, field, end, get_field, set_field, property,
  object_of, items_of, truthy,
}
use semantic_layer_explore.Js.Runtime.{Runtime}
use semantic_layer_explore.Js.Text.{◌<>◌}
use semantic_layer_explore.Js.Result.{Result, ok, threw, ◌>>=◌}
use semantic_layer_explore.Api.Chat.{LlmToolCall}
use semantic_layer_explore.Api.Gemini.{normalize_schema}
use semantic_layer_explore.Api.Gemini.Messages.{
  LlmMessage, GeminiContent, GenerateWithToolsResult, to_gemini_contents,
  from_gemini_assistant_message, named_calls, text_of, parts_or_empty,
}

abbrev pub generation_config_fields : List String
generation_config_fields =
    "candidateCount" ∷ "frequencyPenalty" ∷ "maxOutputTokens" ∷ "presencePenalty"
    ∷ "responseMimeType" ∷ "responseSchema" ∷ "seed" ∷ "stopSequences" ∷ "temperature" ∷ "topK"
    ∷ "topP" ∷ []

-- `delete fields[key]`
unfoldable pub remove_field : String → Fields → Fields
remove_field k end = end
remove_field k (field j v rest) =
    let others = remove_field k rest in if j == k then others else field j v others

-- A field's value goes from the request's settings to the generation's.
abbrev pub move_field : String → Option Json → Fields × Fields → Fields × Fields
move_field k none (request, generation) = (request, generation)
move_field k (some v) (request, generation) = (remove_field k request, set_field k v generation)

-- The loop over the names of the generation's settings.
unfoldable pub move_fields : List String → Fields × Fields → Fields × Fields
unfolding get_field remove_field set_field
move_fields [] s = s
move_fields (k ∷ ks) s = move_fields ks (move_field k (get_field k s.0) s)

-- `{ ...value }` of a value that may be missing.
abbrev pub spread : Option Json → Fields
spread (some (object fs)) = fs
spread _ = end

abbrev pub put_generation : Fields × Fields → Fields
put_generation (request, end) = request
put_generation (request, generation) = set_field "generationConfig" (object generation) request

abbrev pub instruction : String → Json
instruction text =
    object (field "parts" (array (items_of (object (field "text" (string text) end) ∷ []))) end)

abbrev pub wrap_text : Option Json → Fields → Fields
wrap_text (some (string text)) fs = set_field "systemInstruction" (instruction text) fs
wrap_text _ fs = fs

-- The settings of a request as they are sent.
unfoldable pub request_config : Fields → Fields
unfolding get_field set_field move_fields
request_config config =
    let request = wrap_text (get_field "systemInstruction" config) config in
    put_generation (
      move_fields generation_config_fields (request, spread (get_field "generationConfig" request)))

-- The answer of the endpoint: the content of its first candidate, and the message of its error.
pub record VertexAnswer : Type 0 where
  pub is_ok : Bool
  pub status : ℕ
  pub content : Option GeminiContent
  pub error_message : Option String

pub record GeminiResponse : Type 0 where
  pub content : Option GeminiContent
  pub function_calls : List Json
  pub text : String

abbrev truthy_part : Option Json → List Json
truthy_part none = []
truthy_part (some v) = if truthy (some v) then v ∷ [] else []

unfoldable pub function_calls_of : List Json → List Json
unfolding property truthy
function_calls_of [] = []
function_calls_of (part ∷ parts) =
    truthy_part (property "functionCall" part) ++ function_calls_of parts

abbrev content_parts : Option GeminiContent → List Json
content_parts none = []
content_parts (some content) = parts_or_empty content.parts

unfoldable pub to_response : Option GeminiContent → GeminiResponse
unfolding function_calls_of text_of
to_response content = record {
  content = content;
  function_calls = function_calls_of (content_parts content);
  text = text_of (content_parts content);
}

abbrev vertex_failure : Runtime → ℕ → Option String → String
vertex_failure rt status none = "Vertex AI failed with " <> (rt.decimal status <> ".")
vertex_failure rt status (some message) =
    if message == "" then "Vertex AI failed with " <> (rt.decimal status <> ".") else message

unfoldable pub vertex_response : Runtime → Option (Result VertexAnswer) → Result GeminiResponse
unfolding to_response
vertex_response rt none = threw "Vertex generateContent request failed."
vertex_response rt (some (threw e)) = threw e
vertex_response rt (some (ok a)) =
    if a.is_ok
    then ok (to_response a.content)
    else threw (vertex_failure rt a.status a.error_message)

unfoldable pub tools_result : GeminiResponse → GenerateWithToolsResult
unfolding named_calls from_gemini_assistant_message
tools_result r = record {
  text = r.text;
  tool_calls = named_calls r.function_calls;
  assistant_message = from_gemini_assistant_message r.content;
}

-- The settings of a call that the provider makes; a setting that is `undefined` is not sent.
pub record GenerateTextInput : Type 0 where
  pub system : Option String
  pub messages : List LlmMessage
  pub temperature : Option Number
  pub max_output_tokens : Option Number

unfoldable pub generation_config : GenerateTextInput → List (String × Option Json)
generation_config input =
    ("temperature", Option.map number input.temperature)
    ∷ ("maxOutputTokens", Option.map number input.max_output_tokens)
    ∷ ("systemInstruction", Option.map string input.system)
    ∷ []

pub record LlmToolDeclaration : Type 0 where
  pub name : String
  pub description : String
  pub parameters : Json

unfoldable pub to_gemini_tool : (String → String) → LlmToolDeclaration → Json
unfolding normalize_schema
to_gemini_tool upper tool = object (
    field "name" (string tool.name) (
      field "description" (string tool.description)
        (field "parameters" (normalize_schema upper tool.parameters) end)))

abbrev calling_config : List String → Json
calling_config names = object (
    field "functionCallingConfig"
      (object (
        field "mode" (string "ANY")
          (field "allowedFunctionNames" (array (items_of (map string names))) end)))
      end)

unfoldable pub tools_config :
    (String → String) → List LlmToolDeclaration → Option (List String) → List (String × Option Json)
unfolding to_gemini_tool
tools_config upper tools choice =
    (
      "tools",
      some (
          array (
            items_of (
              object (
                field "functionDeclarations" (array (items_of (map (to_gemini_tool upper) tools)))
                  end)
              ∷ []))),
    )
    ∷ ("toolConfig", Option.map calling_config choice)
    ∷ []

-- The three calls of the provider: what they send, and what they make of the client's response.
module _ (rt : Runtime) (upper : String → String)
    (generate_content : List GeminiContent → Fields → Result GeminiResponse) where
  unfoldable pub generate_text : GenerateTextInput → Result String
  unfolding generation_config to_gemini_contents
  generate_text input =
      generate_content (to_gemini_contents input.messages) (object_of (generation_config input))
      >>= λ r. ok r.text

  unfoldable pub generate_structured :
      {A : Type 0} → (Json → Result A) → GenerateTextInput → Result A
  unfolding generation_config to_gemini_contents
  generate_structured schema input =
      generate_content (to_gemini_contents input.messages) (
        object_of
          (generation_config input ++ ("responseMimeType", some (string "application/json")) ∷ []))
      >>= λ r. parsed schema (rt.json_parse (if r.text == "" then "{}" else r.text)) r.text
    where
      parsed : {A : Type 0} → (Json → Result A) → Option Json → String → Result A
      parsed schema none text = threw (rt.syntax_message text)
      parsed schema (some v) text = schema v

  unfoldable pub generate_with_tools :
      GenerateTextInput
      → List LlmToolDeclaration
      → Option (List String)
      → Result GenerateWithToolsResult
  unfolding generation_config tools_config tools_result to_gemini_contents
  generate_with_tools input tools choice =
      generate_content (to_gemini_contents input.messages)
        (object_of (generation_config input ++ tools_config upper tools choice))
      >>= λ r. ok (tools_result r)
