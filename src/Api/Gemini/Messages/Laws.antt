-- ===== src/Api/Gemini/Messages/Laws.antt =====
-- lib/ai/llm/gemini-provider.ts: what is sent back of an answer of the model.
use semantic_layer_explore.Prelude.{
  String, Option, none, some, List, [], ◌∷◌, ◌≡◌, ◌≢◌, refl, ap, ◌==◌, map, All, eq_iff, Bool-cases,
  inl, inr,
}
use mathlib.Core.Option
use semantic_layer_explore.Js.Json.{Json, null, string, object, property, get_field}
use semantic_layer_explore.Api.Chat.{LlmToolCall}
use semantic_layer_explore.Api.Gemini.Messages.{
  assistant, call_part, parts_of, to_gemini_contents, calls_of, call_of, nonempty,
  from_gemini_assistant_message, object_or,
}

-- A call as the provider takes it: with a name, and arguments that are not null.
abbrev pub IsCall : LlmToolCall → Type 0
IsCall call = (call.name ≢ "") × (call.args ≢ null)

object_or-same : (value : Json) → value ≢ null → object_or (some value) ≡ value
object_or-same null h = absurd (h refl)
object_or-same (Json.boolean b) h = refl
object_or-same (Json.number n) h = refl
object_or-same (string s) h = refl
object_or-same (Json.array items) h = refl
object_or-same (object fs) h = refl

call_part-call_of :
    (call : LlmToolCall)
    → IsCall call
    → call_of (property "functionCall" (call_part call)) ≡ call ∷ []
unfolding call_part property get_field
call_part-call_of call (named, given) = elim (Bool-cases (call.name == "")) [
  | inl unnamed ↦ absurd (named ((eq_iff call.name "").0 unnamed))
  | inr other ↦ rw (other, object_or-same call.args given) refl
]

calls_of-map :
    (calls : List LlmToolCall) → All IsCall calls → calls_of (map call_part calls) ≡ calls
unfolding calls_of
calls_of-map [] h = refl
calls_of-map (call ∷ calls) h =
    rw (call_part-call_of call h.0) (ap (◌∷◌ call) (calls_of-map calls h.1))

-- An answer with parts goes back to the model as it came, as its own turn; and an answer whose
-- parts are calls is read as exactly these calls, in their order, which the same parts are made of
-- again where the provider's parts are lost.
pub to_gemini_contents-from_gemini :
    (role : Option String) (part : Json) (parts : List Json) (calls : List LlmToolCall)
    → All IsCall calls
    → (Option.map
          (λ m. to_gemini_contents (m ∷ []))
          (from_gemini_assistant_message
            (some (record { role = role; parts = some (part ∷ parts) })))
        ≡ some (record { role = some "model"; parts = some (part ∷ parts) } ∷ []))
      × (Option.map
            (λ m. m.tool_calls)
            (from_gemini_assistant_message
              (some (record { role = role; parts = some (map call_part calls) })))
          ≡ some (nonempty calls))
      × ((call : LlmToolCall)
          → parts_of (record {
            role = assistant;
            content = none;
            tool_calls = some (call ∷ calls);
            tool_responses = none;
            provider_parts = none;
          })
            ≡ map call_part (call ∷ calls))
unfolding to_gemini_contents from_gemini_assistant_message parts_of
to_gemini_contents-from_gemini role part parts calls h =
    (refl, ap (λ c. some (nonempty c)) (calls_of-map calls h), λ call. refl)
