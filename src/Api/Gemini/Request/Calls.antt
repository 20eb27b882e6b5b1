-- ===== src/Api/Gemini/Request/Calls.antt =====
-- lib/ai/gemini.ts and lib/ai/llm/gemini-provider.ts: the tools and the text of a response.
use semantic_layer_explore.Prelude.{
  String, Bool, true, false, Option, none, some, List, [], ◌∷◌, ◌++◌, ◌==◌, ◌≡◌, refl, sym, ap, ◌∙◌,
  eq_iff, or_else, if◌then◌else◌, Bool-cases, inl, inr,
}
use semantic_layer_explore.Js.Json.{Json, null, string, number, object, array, property, truthy}
use semantic_layer_explore.Api.Chat.{LlmToolCall}
use semantic_layer_explore.Api.Gemini.Messages.{
  GeminiContent, LlmMessage, calls_of, call_of, named_calls, nonempty, nonempty_text,
  parts_or_empty, from_gemini_assistant_message, text_of,
}
use semantic_layer_explore.Api.Gemini.Request.{
  function_calls_of, truthy_part, to_response, tools_result,
}

module _ (v : Json) (rest : List Json) where
  skipped :
      (b : Bool)
      → call_of (some v) ≡ []
      → named_calls ((if b then v ∷ [] else []) ++ rest) ≡ call_of (some v) ++ named_calls rest
  unfolding named_calls
  skipped true h = refl
  skipped false h = rw h refl

-- A value that counts as false has no name, so no call is lost with it.
named_calls-truthy_part :
    (v : Option Json) (rest : List Json)
    → named_calls (truthy_part v ++ rest) ≡ call_of v ++ named_calls rest
unfolding truthy named_calls property
named_calls-truthy_part none rest = refl
named_calls-truthy_part (some (object o)) rest = refl
named_calls-truthy_part (some null) rest = refl
named_calls-truthy_part (some (array a)) rest = refl
named_calls-truthy_part (some (Json.boolean b)) rest = skipped (Json.boolean b) rest b refl
named_calls-truthy_part (some (number n)) rest =
    skipped (number n) rest (truthy (some (number n))) refl
named_calls-truthy_part (some (string s)) rest =
    skipped (string s) rest (truthy (some (string s))) refl

named_calls-function_calls_of :
    (parts : List Json) → named_calls (function_calls_of parts) ≡ calls_of parts
unfolding function_calls_of calls_of named_calls
named_calls-function_calls_of [] = refl
named_calls-function_calls_of (part ∷ parts) =
    named_calls-truthy_part (property "functionCall" part) (function_calls_of parts)
    ∙ ap (call_of (property "functionCall" part) ++◌) (named_calls-function_calls_of parts)

or_else-nonempty : (calls : List LlmToolCall) → or_else (nonempty calls) [] ≡ calls
or_else-nonempty [] = refl
or_else-nonempty (call ∷ calls) = refl

or_else-nonempty_text : (text : String) → or_else (nonempty_text text) "" ≡ text
or_else-nonempty_text text = elim (Bool-cases (text == "")) [
  | inl e ↦ rw e (sym ((eq_iff text "").0 e))
  | inr e ↦ rw e refl
]

abbrev pub message_calls : Option LlmMessage → List LlmToolCall
message_calls none = []
message_calls (some m) = or_else m.tool_calls []

abbrev pub message_text : Option LlmMessage → String
message_text none = ""
message_text (some m) = or_else m.content ""

-- The tools that are to be called and the text of a result, which the client reads off a response,
-- are those of the message that is sent back with the tools' answers, which the provider reads off
-- the same response.
pub tools_result-agree :
    (content : Option GeminiContent)
    → (message_calls (tools_result (to_response content)).assistant_message
        ≡ (tools_result (to_response content)).tool_calls)
      × (message_text (tools_result (to_response content)).assistant_message
          ≡ (tools_result (to_response content)).text)
unfolding tools_result to_response from_gemini_assistant_message
tools_result-agree none = (refl, refl)
tools_result-agree (some content) = (
  or_else-nonempty (calls_of (parts_or_empty content.parts))
      ∙ sym (named_calls-function_calls_of (parts_or_empty content.parts)),
  or_else-nonempty_text (text_of (parts_or_empty content.parts)),
)
