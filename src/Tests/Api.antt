-- ===== src/Tests/Api.antt =====
-- The theorems on the routes, at concrete requests.
use semantic_layer_explore.Prelude.{
  refl, false, ◌+◌, ◌*◌, ◌≤◌, ◌<◌, arith, ◌≡◌, ◌⊎◌, filter, Bool-cases, inl, inr, if◌then◌else◌,
  ◌≢◌, ◌↔◌, String, Option, none, some, List, [], ◌∷◌, find, ◌==◌, min, true, map, All, Member,
}
use semantic_layer_explore.Js.Json.{Json, null, object, string, boolean, field, end}
use semantic_layer_explore.Js.Runtime.{Environment}
use semantic_layer_explore.Js.Result.{ok, threw}
use semantic_layer_explore.Api.Rules.{
  RuleInput, SensorTarget, DeviceTarget, passed, validate_rule_targets,
}
use semantic_layer_explore.Api.Rules.Laws.{IsTarget, validate_rule_targets-IsTarget_iff}
use semantic_layer_explore.Api.RateLimit.{ask, seconds_until_utc_midnight, key_of, get_daily_limit}
use semantic_layer_explore.Api.RateLimit.Laws.{
  Call, requested, granted, in_process, granted-limit, seconds_until_utc_midnight-bounds,
}
use semantic_layer_explore.Api.Chat.{LlmProvider, Fetched, body, chat, find_path, tool_members}
use semantic_layer_explore.Api.Chat.Laws.{paths, chat-Within}
use semantic_layer_explore.Client.Policy.{
  Ontology, copilot_query, semantic_policies, confirm_semantic_policy,
}
use semantic_layer_explore.Client.Policy.Laws.{
  Confirms, LetsThrough, confirm_semantic_policy-Confirms_iff,
}
use semantic_layer_explore.Api.Propose.{compile_rule}
use semantic_layer_explore.Api.Propose.Laws.{Compiled, compile_rule-Compiled}
use semantic_layer_explore.Api.Gemini.{normalize_schema}
use semantic_layer_explore.Api.Gemini.Laws.{normalize_schema-clean}
use semantic_layer_explore.Api.Gemini.Clean.{own_keys, is_taken, is_clean}
use semantic_layer_explore.Tests.Data.{runtime, rule_row, action}

abbrev input : RuleInput
input = record { condition = rule_row.condition; action = action }

abbrev sensors : List SensorTarget
sensors = record { id = "t-1"; unit = "celsius" } ∷ []

abbrev devices : List DeviceTarget
devices = record { id = "led-1"; type = "led" } ∷ []

validate_rule_targets-IsTarget_iff_example :
    ((validate_rule_targets input (some sensors) (some devices) ≡ passed)
      ↔ IsTarget input (find (λ s. s.id == "t-1") sensors) (find (λ d. d.id == "led-1") devices))
    × ((answer : Option (List DeviceTarget)) → validate_rule_targets input none answer ≢ passed)
    × (validate_rule_targets input (some sensors) none ≢ passed)
validate_rule_targets-IsTarget_iff_example =
    validate_rule_targets-IsTarget_iff input sensors devices

seconds_until_utc_midnight-bounds_example :
    (60 ≤ seconds_until_utc_midnight 43_200_500)
    × (seconds_until_utc_midnight 43_200_500 ≤ 86_400)
    × (86_400_000 ≤ 43_200_500 + seconds_until_utc_midnight 43_200_500 * 1_000)
    × ((seconds_until_utc_midnight 43_200_500 ≡ 60)
        ⊎ (43_200_500 + seconds_until_utc_midnight 43_200_500 * 1_000 < 86_400_000 + 1_000))
seconds_until_utc_midnight-bounds_example =
    seconds_until_utc_midnight-bounds 43_200_500 86_400_000 refl (omega arith) (omega arith)

abbrev three_a_day : Environment
three_a_day name = some "3"

abbrev call : Call
call = record { bucket = ask; header = λ name. none; now = 5_000 }

granted-limit_example :
    granted runtime three_a_day
      (key_of ask "1970-01-01" "local")
      (call ∷ call ∷ call ∷ call ∷ call ∷ [])
      (in_process runtime three_a_day [])
    ≡ min
        (requested runtime three_a_day
          (key_of ask "1970-01-01" "local")
          (call ∷ call ∷ call ∷ call ∷ call ∷ []))
        (get_daily_limit runtime three_a_day ask)
granted-limit_example =
    granted-limit runtime three_a_day ask "1970-01-01" "local"
      (call ∷ call ∷ call ∷ call ∷ call ∷ [])

-- A provider that never stops asking for tools, one of them a member that every object inherits.
abbrev provider : LlmProvider
provider = record {
  id = "gemini";
  generate_with_tools = λ request. ok (record {
    text = "";
    tool_calls =
        record { name = "getSensors"; args = null }
        ∷ record { name = "toString"; args = null }
        ∷ [];
    assistant_message = none;
  });
}

abbrev fetch_null : String → Fetched
fetch_null path = body (ok null)

inherited_is_found :
    find_path "toString" tool_members ≡ some "function toString() { [native code] }"
unfolding find_path
inherited_is_found = refl

chat-Within_example :
    ((chat fetch_null provider "why?").1.asked ≤ 7)
    × All (λ path. Member path paths) (chat fetch_null provider "why?").1.fetched
chat-Within_example = chat-Within fetch_null provider "why?"

abbrev ontology : Ontology
ontology = record {
  classes = [];
  properties = [];
  individuals =
      record {
        id = 1;
        name = "InspectionTeam";
        description = "";
        class_name = "Team";
        external_id = none;
      }
      ∷ [];
  relations =
      record { id = 1; subject = "InspectionTeam"; predicate = "worksFor"; object = "BestAiCom" }
      ∷ [];
}

confirm_semantic_policy-Confirms_iff_example :
    (LetsThrough
        (confirm_semantic_policy runtime (λ prompt. true) (some (ok ontology)) copilot_query)
      ↔ (Confirms (semantic_policies copilot_query) ontology × (true ≡ true)))
    × ((e : String)
        → ¬ LetsThrough
            (confirm_semantic_policy runtime (λ prompt. true) (some (threw e)) copilot_query))
    × ¬ LetsThrough (confirm_semantic_policy runtime (λ prompt. true) none copilot_query)
confirm_semantic_policy-Confirms_iff_example =
    confirm_semantic_policy-Confirms_iff runtime (λ prompt. true) ontology copilot_query

-- A provider that asks for the tool it is told to, and one answer that the schema takes.
abbrev obedient : LlmProvider
obedient = record {
  id = "gemini";
  generate_with_tools = λ request. ok (record {
    text = "";
    tool_calls = map (λ name. record { name = name; args = null }) request.tools;
    assistant_message = none;
  });
}

abbrev parse_input : Json → Option RuleInput
parse_input raw = some input

compile_rule-Compiled_example :
    Compiled
      (some sensors)
      (some devices)
      runtime
      parse_input
      fetch_null
      obedient
      (λ s. ok null)
      (compile_rule
        (some sensors)
        (some devices)
        runtime
        parse_input
        fetch_null
        obedient
        (λ s. ok null)
        "cool the room")
compile_rule-Compiled_example =
    compile_rule-Compiled (some sensors) (some devices) runtime parse_input fetch_null obedient
      (λ s. ok null) "cool the room"

abbrev schema : Json
schema = object (field "type" (string "object") (field "additionalProperties" (boolean false) end))

abbrev large : String → String
large text = if text == "object" then "OBJECT" else text

large_twice : (text : String) → large (large text) ≡ large text
large_twice text = elim (Bool-cases (text == "object")) [
  | inl small ↦ rw small refl
  | inr other ↦ rw other (rw other refl)
]

normalize_schema-clean_example :
    (is_clean large (normalize_schema large schema) ≡ true)
    × ((is_clean large schema ≡ true) ↔ (normalize_schema large schema ≡ schema))
    × (own_keys (normalize_schema large schema) ≡ filter is_taken (own_keys schema))
normalize_schema-clean_example = normalize_schema-clean large large_twice schema
