-- ===== src/Tests/Gemini.antt =====
-- The theorems on the Gemini provider, at concrete inputs.
use semantic_layer_explore.Prelude.{
  ℕ, String, Bool, true, false, none, some, [], ◌∷◌, ◌≡◌, ◌≢◌, refl, ap, ◌==◌, map, eq_iff,
}
use mathlib.Core.Option
use semantic_layer_explore.Js.Number.{of_nat}
use semantic_layer_explore.Js.Json.{
  Json, null, string, number, object, Fields, field, end, get_field,
}
use semantic_layer_explore.Js.Result.{ok}
use semantic_layer_explore.Api.Chat.{LlmToolCall}
use semantic_layer_explore.Api.Gemini.Messages.{
  GeminiContent, assistant, call_part, parts_of, nonempty, to_gemini_contents,
  from_gemini_assistant_message,
}
use semantic_layer_explore.Api.Gemini.Messages.Laws.{to_gemini_contents-from_gemini}
use semantic_layer_explore.Api.Gemini.Token.{
  ServiceAccountCredentials, Oauth, Cache, get_access_token,
}
use semantic_layer_explore.Api.Gemini.Token.Laws.{KeepsAll, Uses, get_access_token-reuses}
use semantic_layer_explore.Api.Gemini.Request.{
  to_response, tools_result, request_config, spread, generation_config_fields,
}
use semantic_layer_explore.Api.Gemini.Request.Settings.{
  is_listed, left_behind, received, instruction_of, request_config-IsSent,
}
use semantic_layer_explore.Api.Gemini.Request.Calls.{
  message_calls, message_text, tools_result-agree,
}
use semantic_layer_explore.Tests.Data.{runtime}

abbrev call : LlmToolCall
call = record { name = "getSensors"; args = object end }

differ : (s t : String) → (s == t) ≡ false → s ≢ t
differ s t h e = let same = (eq_iff s t).1 e in cc (h, same)

abbrev is_null : Json → Bool
is_null null = true
is_null _ = false

given : object end ≢ null
given e = let both = ap is_null e in cc both

to_gemini_contents-from_gemini_example :
    (Option.map
        (λ m. to_gemini_contents (m ∷ []))
        (from_gemini_assistant_message
          (some (record { role = none; parts = some (string "part" ∷ []) })))
      ≡ some (record { role = some "model"; parts = some (string "part" ∷ []) } ∷ []))
    × (Option.map
          (λ m. m.tool_calls)
          (from_gemini_assistant_message
            (some (record { role = none; parts = some (map call_part (call ∷ [])) })))
        ≡ some (nonempty (call ∷ [])))
    × ((first : LlmToolCall)
        → parts_of (record {
          role = assistant;
          content = none;
          tool_calls = some (first ∷ call ∷ []);
          tool_responses = none;
          provider_parts = none;
        })
          ≡ map call_part (first ∷ call ∷ []))
to_gemini_contents-from_gemini_example =
    to_gemini_contents-from_gemini none (string "part") [] (call ∷ [])
      ((differ "getSensors" "" refl, given), tt)

abbrev credentials : ServiceAccountCredentials
credentials = record {
  client_email = some "a@b";
  private_key = some "key";
  project_id = some "p";
  token_uri = some "https://t";
}

abbrev oauth : Oauth
oauth = record {
  encode = λ json. "json";
  sign = λ text key. "signature";
  request = λ uri assertion. some (
      ok (record {
        is_ok = true;
        status = 200;
        access_token = some "token";
        expires_in = none;
        error_description = none;
      }));
  now_after = 1_000;
}

-- A token that is valid for an hour is used again half an hour later, where a request would fail.
abbrev silent : Oauth
silent = record oauth { request = λ uri assertion. none }

abbrev kept : Cache
kept = some (record { value = "token"; expires_at = 3_601_000 })

asked : get_access_token runtime oauth credentials 500 none ≡ (ok "token", kept)
unfolding get_access_token
asked = refl

get_access_token-reuses_example :
    Uses 1_801_000 "token" kept
      (get_access_token runtime silent credentials 1_801_000 kept)
      (get_access_token runtime silent credentials 1_801_000 none).0
    × ((before : Cache) (t : ℕ)
        → KeepsAll before (get_access_token runtime silent credentials t before))
get_access_token-reuses_example =
    get_access_token-reuses runtime oauth silent credentials credentials 500 1_801_000 none kept
      "token" asked

-- A minute before its end the token is asked for again.
asked_again :
    (get_access_token runtime silent credentials 3_541_000 kept).0
    ≡ (get_access_token runtime silent credentials 3_541_000 none).0
unfolding get_access_token
asked_again = refl

abbrev settings : Fields
settings =
    field "temperature" (number (of_nat 0)) (field "systemInstruction" (string "Be brief.") end)

request_config-IsSent_example :
    (get_field "temperature" (request_config settings)
      ≡ left_behind
          (is_listed "temperature" generation_config_fields)
          (get_field "temperature" settings))
    × (get_field "temperature" (spread (get_field "generationConfig" (request_config settings)))
        ≡ received
            (is_listed "temperature" generation_config_fields)
            (get_field "temperature" settings)
            (get_field "temperature" (spread (get_field "generationConfig" settings))))
    × (get_field "systemInstruction" (request_config settings)
        ≡ instruction_of (get_field "systemInstruction" settings))
request_config-IsSent_example =
    request_config-IsSent settings "temperature" (differ "temperature" "generationConfig" refl)
      (differ "temperature" "systemInstruction" refl)

abbrev answer : GeminiContent
answer = record {
  role = some "model";
  parts = some (object (field "text" (string "Let me see.") end) ∷ call_part call ∷ []);
}

tools_result-agree_example :
    (message_calls (tools_result (to_response (some answer))).assistant_message
      ≡ (tools_result (to_response (some answer))).tool_calls)
    × (message_text (tools_result (to_response (some answer))).assistant_message
        ≡ (tools_result (to_response (some answer))).text)
tools_result-agree_example = tools_result-agree (some answer)
