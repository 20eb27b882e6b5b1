-- ===== src/Api/Propose.antt =====
-- The proposal of a rule, app/api/ai/rules/propose/route.ts, with the allowance and the errors of
-- lib/ai/http.ts. The schema of a rule's input is checked by a library: `parse` is its answer. The
-- text of the prompts is left out.
pub mod Laws
use semantic_layer_explore.Prelude.{
  ℕ, zero, suc, ◌+◌, String, Bool, true, false, ◌&&◌, not, Option, none, some, List, [], ◌∷◌, ◌++◌,
  ◌==◌, any, if◌then◌else◌,
}
use semantic_layer_explore.Js.Number.{Number}
use semantic_layer_explore.Js.Json.{
  Json, boolean, number, string, object, Fields, field, end, get_field, set_field, is_text,
}
use semantic_layer_explore.Js.Text.{◌<>◌, includes}
use semantic_layer_explore.Js.Runtime.{Runtime, Environment}
use semantic_layer_explore.Js.Result.{Result, ok, threw}
use semantic_layer_explore.Api.RateLimit.{
  RateLimitBucket, Limits, Allowance, consume_daily_allowance, ask,
}
use semantic_layer_explore.Api.Rules.{
  RuleInput, SensorTarget, DeviceTarget, ApiError, invalid_input, failure, Checked, passed, refused,
  validate_rule_targets,
}
use semantic_layer_explore.Api.Chat.{
  LlmToolCall, tool_responses, ToolRequest, GenerateWithToolsResult, LlmProvider, Fetched, Session,
  Out, push, push_assistant, started, call_application_tool,
}

abbrev true_words : List String
true_words = "true" ∷ "pressed" ∷ "on" ∷ "1" ∷ "yes" ∷ []

-- `Number(text)`, unless the text is blank.
abbrev number_of : Runtime → String → Json
number_of rt text = if rt.trim text == "" then string text else number (rt.to_number text)

-- The value of a condition that is a text.
abbrev condition_value : Runtime → Bool → String → Json
condition_value rt is_boolean text =
    if is_boolean
    then boolean (any (λ word. word == rt.lower (rt.trim text)) true_words)
    else number_of rt text

abbrev with_value : (String → Json) → Option Json → Fields → Json
with_value f (some (string text)) fs = object (set_field "value" (f text) fs)
with_value f _ fs = object fs

unfoldable pub normalize_condition : Runtime → Json → Json
unfolding get_field set_field any is_text
normalize_condition rt (object fs) =
    with_value (condition_value rt (is_text "boolean" (get_field "unit" fs))) (get_field "value" fs)
      fs
normalize_condition rt value = value

unfoldable pub normalize_action : Runtime → Json → Json
unfolding get_field set_field
normalize_action rt (object fs) = with_value (number_of rt) (get_field "value" fs) fs
normalize_action rt value = value

abbrev change : String → (Json → Json) → Option Json → Fields → Fields
change key f none fs = fs
change key f (some value) fs = set_field key (f value) fs

unfoldable pub normalize_proposal : Runtime → Json → Json
unfolding normalize_condition normalize_action get_field set_field
normalize_proposal rt (object fs) =
    let conditioned = change "condition" (normalize_condition rt) (get_field "condition" fs) fs in
    object (change "action" (normalize_action rt) (get_field "action" conditioned) conditioned)
normalize_proposal rt value = value

-- A `ZodError`, an `InputValidationError` and any other `Error`.
pub data AiError : Type 0 where
  zod_error : AiError
  input_error : String → AiError
  other_error : String → AiError

pub data Outcome : Type 0 where
  proposed : RuleInput → Outcome
  failed : AiError → Outcome

pub data Body : Type 0 where
  error_body : String → Body
  proposal_body : RuleInput → List String → ℕ → Body

pub record Response : Type 0 where
  pub status : ℕ
  pub body : Body
  pub headers : List (String × String)

unfoldable pub rate_limit_headers : Runtime → ℕ → ℕ → List (String × String)
rate_limit_headers rt limit remaining =
    ("x-ratelimit-limit", rt.decimal limit) ∷ ("x-ratelimit-remaining", rt.decimal remaining) ∷ []

abbrev shown_message : String → String
shown_message raw =
    if includes raw "credentials are unavailable"
    then "Gemini credentials are not available in this runtime."
    else raw

unfoldable pub ai_error_response : AiError → Response
unfolding includes
ai_error_response zod_error = record {
  status = 400;
  body = error_body "Invalid input";
  headers = [];
}
ai_error_response (input_error message) = record {
  status = 400;
  body = error_body message;
  headers = [];
}
ai_error_response (other_error message) = record {
  status = 500;
  body = error_body (shown_message message);
  headers = [];
}

unfoldable pub limited_response : Runtime → Allowance → Response
unfolding rate_limit_headers
limited_response rt allowance = record {
  status = 429;
  body = error_body "Daily AI limit reached. Please try again tomorrow.";
  headers =
      ("retry-after", rt.decimal allowance.reset_seconds) ∷ rate_limit_headers rt allowance.limit 0;
}

abbrev pub tool_names : List String
tool_names = "getOntology" ∷ "getSensors" ∷ "getDevices" ∷ []

abbrev first_name : List LlmToolCall → String
first_name [] = ""
first_name (call ∷ calls) = call.name

module _ (fetch : String → Fetched) (provider : LlmProvider) where
  abbrev pub request_tool : String → Session → ToolRequest
  request_tool name s = record {
    messages = s.messages;
    tools = name ∷ [];
    tool_choice = some (name ∷ []);
  }

  abbrev pub answered : (Session → Out (Unit {0})) → String → Out Json → Out (Unit {0})
  answered next name (threw e, s) = (threw e, s)
  answered next name (ok json, s) = next (
      push
        (tool_responses (record { name = name; response = object (field "result" json end) } ∷ []))
        s)

  abbrev pub called :
      (Session → Out (Unit {0}))
      → String
      → GenerateWithToolsResult
      → String
      → Session
      → Out (Unit {0})
  called next wanted result name s =
      if name == ""
      then (threw (provider.id <> (" did not request " <> (wanted <> "."))), s)
      else let t = push_assistant result.assistant_message s in
        answered next name
          (call_application_tool fetch name (record t { trace = t.trace ++ name ∷ [] }))

  abbrev pub generated :
      (Session → Out (Unit {0}))
      → String
      → Result GenerateWithToolsResult
      → Session
      → Out (Unit {0})
  generated next wanted (threw e) s = (threw e, s)
  generated next wanted (ok result) s = called next wanted result (first_name result.tool_calls) s

  -- The loop over the names of the tools.
  unfoldable pub ask_tools : List String → Session → Out (Unit {0})
  unfolding call_application_tool
  ask_tools [] s = (ok tt, s)
  ask_tools (wanted ∷ names) s =
      generated (λ t. ask_tools names t) wanted
        (provider.generate_with_tools (request_tool wanted s)) (record s { asked = s.asked + 1 })

abbrev of_api_error : ApiError → AiError
of_api_error (invalid_input message) = input_error message
of_api_error (failure message) = other_error message

abbrev pub checked : RuleInput → Checked → Outcome
checked input passed = proposed input
checked input (refused error) = failed (of_api_error error)

module _ (sensors : Option (List SensorTarget)) (devices : Option (List DeviceTarget)) where
  abbrev pub validated : Option RuleInput → Outcome
  validated none = failed zod_error
  validated (some input) = checked input (validate_rule_targets input sensors devices)

  module _ (rt : Runtime) (parse : Json → Option RuleInput) where
    -- From the answer of `generateStructured` on.
    unfoldable pub propose : Result Json → Outcome
    unfolding normalize_proposal validate_rule_targets
    propose (threw e) = failed (other_error e)
    propose (ok raw) = validated (parse (normalize_proposal rt raw))

    module _ (fetch : String → Fetched) (provider : LlmProvider) where
      module _ (generate_structured : Session → Result Json) where
        abbrev pub compiled : Out (Unit {0}) → Outcome × Session
        compiled (threw e, s) = (failed (other_error e), s)
        compiled (ok x, s) = (propose (generate_structured s), s)

        -- The part of the handler behind the allowance.
        unfoldable pub compile_rule : String → Outcome × Session
        unfolding propose ask_tools
        compile_rule instruction =
            compiled (ask_tools fetch provider tool_names (started instruction))

unfoldable pub proposal_response : Runtime → Allowance → Outcome × Session → Response
unfolding rate_limit_headers ai_error_response
proposal_response rt allowance (proposed input, s) = record {
  status = 200;
  body = proposal_body input s.trace allowance.remaining;
  headers = rate_limit_headers rt allowance.limit allowance.remaining;
}
proposal_response rt allowance (failed error, s) = ai_error_response error

-- `compile` is the part of the handler behind the allowance; the text of the instruction is already
-- parsed.
unfoldable pub post :
    Runtime
    → Environment
    → (String → Option String)
    → ℕ
    → (String → Outcome × Session)
    → String
    → Limits
    → Response × Limits
unfolding consume_daily_allowance limited_response proposal_response
post rt env header now compile instruction limits =
    let (allowance, left) = consume_daily_allowance rt env ask header now limits in
    (
      if allowance.allowed
          then proposal_response rt allowance (compile instruction)
          else limited_response rt allowance,
      left,
    )
