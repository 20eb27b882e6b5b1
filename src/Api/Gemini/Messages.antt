-- ===== src/Api/Gemini/Messages.antt =====
-- The messages of lib/ai/llm/provider.ts, and their conversion in lib/ai/llm/gemini-provider.ts.
pub mod Laws
use semantic_layer_explore.Prelude.{
  ℕ, String, Bool, true, false, Option, none, some, List, [], ◌∷◌, ◌++◌, ◌==◌, map, or_else,
  if◌then◌else◌,
}
use semantic_layer_explore.Js.Number.{Number}
use semantic_layer_explore.Js.Json.{
  Json, null, string, number, object, Fields, field, end, property, object_of,
}
use semantic_layer_explore.Js.Text.{◌<>◌}
use semantic_layer_explore.Api.Chat.{LlmToolCall, ToolResponse}

pub data Role : Type 0 where
  user assistant : Role

pub record LlmMessage : Type 0 where
  pub role : Role
  pub content : Option String
  pub tool_calls : Option (List LlmToolCall)
  pub tool_responses : Option (List ToolResponse)
  pub provider_parts : Option (List Json)

pub record GeminiContent : Type 0 where
  pub role : Option String
  pub parts : Option (List Json)

abbrev pub gemini_role : Role → String
gemini_role user = "user"
gemini_role assistant = "model"

unfoldable pub call_part : LlmToolCall → Json
call_part call = object (
    field "functionCall" (object (field "name" (string call.name) (field "args" call.args end)))
      end)

unfoldable pub response_part : ToolResponse → Json
response_part r = object (
    field "functionResponse"
      (object (field "name" (string r.name) (field "response" r.response end))) end)

abbrev text_part : Option String → Json
text_part content = object (field "text" (string (or_else content "")) end)

-- `list?.length ? list : other`
abbrev pub unless_empty {ℓ} : {A : Type 0} {B : Type ℓ} → Option (List A) → (List A → B) → B → B
unless_empty none f other = other
unless_empty (some []) f other = other
unless_empty (some (x ∷ xs)) f other = f (x ∷ xs)

unfoldable pub parts_of : LlmMessage → List Json
unfolding call_part response_part
parts_of message =
    unless_empty message.provider_parts (λ parts. parts)
      (unless_empty message.tool_calls (λ calls. map call_part calls)
        (unless_empty message.tool_responses (λ responses. map response_part responses)
          (text_part message.content ∷ [])))

unfoldable pub to_gemini_contents : List LlmMessage → List GeminiContent
unfolding parts_of
to_gemini_contents messages =
    map
      (λ message. record {
        role = some (gemini_role message.role);
        parts = some (parts_of message);
      })
      messages

abbrev text_or_empty : Option Json → String
text_or_empty (some (string text)) = text
text_or_empty _ = ""

-- The texts of the parts, joined.
unfoldable pub text_of : List Json → String
unfolding property
text_of [] = ""
text_of (part ∷ parts) = text_or_empty (property "text" part) <> text_of parts

abbrev object_or : Option Json → Json
object_or none = object end
object_or (some null) = object end
object_or (some value) = value

-- A call without a name is left out.
abbrev pub named_call : Option Json → Option Json → List LlmToolCall
named_call (some (string name)) args =
    if name == "" then [] else record { name = name; args = object_or args } ∷ []
named_call _ args = []

abbrev pub call_of : Option Json → List LlmToolCall
call_of none = []
call_of (some call) = named_call (property "name" call) (property "args" call)

unfoldable pub calls_of : List Json → List LlmToolCall
unfolding property
calls_of [] = []
calls_of (part ∷ parts) = call_of (property "functionCall" part) ++ calls_of parts

abbrev pub nonempty_text : String → Option String
nonempty_text text = if text == "" then none else some text

abbrev pub nonempty : {A : Type 0} → List A → Option (List A)
nonempty [] = none
nonempty (x ∷ xs) = some (x ∷ xs)

abbrev pub parts_or_empty : Option (List Json) → List Json
parts_or_empty none = []
parts_or_empty (some parts) = parts

unfoldable pub from_gemini_assistant_message : Option GeminiContent → Option LlmMessage
unfolding text_of calls_of
from_gemini_assistant_message none = none
from_gemini_assistant_message (some content) = some (record {
  role = assistant;
  content = nonempty_text (text_of (parts_or_empty content.parts));
  tool_calls = nonempty (calls_of (parts_or_empty content.parts));
  tool_responses = none;
  provider_parts = nonempty (parts_or_empty content.parts);
})

-- What `generateWithTools` returns of a response: `{ text, functionCalls }` of the client, and the
-- content of the first candidate.
pub record GenerateWithToolsResult : Type 0 where
  pub text : String
  pub tool_calls : List LlmToolCall
  pub assistant_message : Option LlmMessage

unfoldable pub named_calls : List Json → List LlmToolCall
unfolding property
named_calls [] = []
named_calls (call ∷ calls) = call_of (some call) ++ named_calls calls
