-- ===== src/Api/Chat.antt =====
-- The conversation of app/api/ai/chat/route.ts and the tools of lib/ai/tool-layer.ts. The text of
-- the system prompt and the descriptions of the tools are left out.
pub mod Laws
pub mod Post
use semantic_layer_explore.Prelude.{
  ℕ, zero, suc, ◌+◌, String, Bool, true, false, not, Option, none, some, List, [], ◌∷◌, ◌++◌, ◌==◌,
  map, or_else, if◌then◌else◌,
}
use semantic_layer_explore.Js.Json.{Json, object, field, end}
use semantic_layer_explore.Js.Text.{◌<>◌}
use semantic_layer_explore.Js.Result.{Result, ok, threw}

pub record LlmToolCall : Type 0 where
  pub name : String
  pub args : Json

pub record ToolResponse : Type 0 where
  pub name : String
  pub response : Json

pub data LlmMessage : Type 0 where
  question : String → LlmMessage
  assistant : Json → LlmMessage
  tool_responses : List ToolResponse → LlmMessage

pub record ToolRequest : Type 0 where
  pub messages : List LlmMessage
  pub tools : List String
  -- the names that one of must be called, where there is a choice to make
  pub tool_choice : Option (List String)

pub record GenerateWithToolsResult : Type 0 where
  pub text : String
  pub tool_calls : List LlmToolCall
  pub assistant_message : Option Json

pub record LlmProvider : Type 0 where
  pub id : String
  pub generate_with_tools : ToolRequest → Result GenerateWithToolsResult

-- What `fetch` answers for a path of the internal API: the status of a response that is not `ok`,
-- or the outcome of reading its JSON.
pub data Fetched : Type 0 where
  not_ok : String → Fetched
  body : Result Json → Fetched

abbrev pub tool_paths : List (String × String)
tool_paths =
    ("getOntology", "/api/ontology")
    ∷ ("getCurrentState", "/api/state")
    ∷ ("getSensors", "/api/sensors")
    ∷ ("getDevices", "/api/devices")
    ∷ ("getRecentEvents", "/api/events?limit=50")
    ∷ ("getRules", "/api/rules")
    ∷ []

abbrev native : String → String
native name = "function " <> (name <> "() { [native code] }")

-- The members that every JavaScript object inherits, as the text that a URL is made of.
abbrev pub inherited_members : List (String × String)
inherited_members =
    ("constructor", native "Object")
    ∷ ("toString", native "toString")
    ∷ ("toLocaleString", native "toLocaleString")
    ∷ ("valueOf", native "valueOf")
    ∷ ("hasOwnProperty", native "hasOwnProperty")
    ∷ ("isPrototypeOf", native "isPrototypeOf")
    ∷ ("propertyIsEnumerable", native "propertyIsEnumerable")
    ∷ ("__defineGetter__", native "__defineGetter__")
    ∷ ("__defineSetter__", native "__defineSetter__")
    ∷ ("__lookupGetter__", native "__lookupGetter__")
    ∷ ("__lookupSetter__", native "__lookupSetter__")
    ∷ ("__proto__", "[object Object]")
    ∷ []

-- What an index of `toolPaths` finds: its own keys come first, then those that it inherits.
abbrev pub tool_members : List (String × String)
tool_members = tool_paths ++ inherited_members

unfoldable pub find_path : String → List (String × String) → Option String
find_path name [] = none
find_path name ((key, path) ∷ rest) = if key == name then some path else find_path name rest

-- `applicationToolDeclarations`, by name
abbrev pub declared_tools : List String
declared_tools =
    "getOntology" ∷ "getCurrentState" ∷ "getSensors" ∷ "getDevices" ∷ "getRecentEvents" ∷ "getRules"
    ∷ []

-- The messages, the trace, the paths that were fetched, and how often the provider was asked.
pub record Session : Type 0 where
  pub messages : List LlmMessage
  pub trace : List String
  pub fetched : List String
  pub asked : ℕ

pub record Answer : Type 0 where
  pub answer : String
  pub trace : List String

abbrev pub Out {ℓ} : Type ℓ → Type ℓ
Out A = Result A × Session

abbrev pub push : LlmMessage → Session → Session
push m s = record s { messages = s.messages ++ m ∷ [] }

abbrev pub push_assistant : Option Json → Session → Session
push_assistant none s = s
push_assistant (some m) s = push (assistant m) s

abbrev pub started : String → Session
started text = record { messages = question text ∷ []; trace = []; fetched = []; asked = 0 }

module _ (fetch : String → Fetched) where
  abbrev pub fetched_json : String → Fetched → Result Json
  fetched_json name (not_ok status) = threw (name <> (" failed with " <> status))
  fetched_json name (body json) = json

  -- `callApplicationTool`
  abbrev pub call_path : String → Option String → Session → Out Json
  call_path name none s = (threw ("Unsupported tool: " <> name), s)
  call_path name (some path) s =
      (fetched_json name (fetch path), record s { fetched = s.fetched ++ path ∷ [] })

  unfoldable pub call_application_tool : String → Session → Out Json
  unfolding find_path
  call_application_tool name s = call_path name (find_path name tool_members) s

  abbrev add_response : String → Json → Out (List ToolResponse) → Out (List ToolResponse)
  add_response name json (ok rest, s) =
      (ok (record { name = name; response = object (field "result" json end) } ∷ rest), s)
  add_response name json (threw e, s) = (threw e, s)

  abbrev pub after_call :
      String → Out Json → (Session → Out (List ToolResponse)) → Out (List ToolResponse)
  after_call name (ok json, s) next = add_response name json (next s)
  after_call name (threw e, s) next = (threw e, s)

  -- The loop over the calls of one turn.
  unfoldable pub call_tools : List LlmToolCall → Session → Out (List ToolResponse)
  unfolding call_application_tool
  call_tools [] s = (ok [], s)
  call_tools (call ∷ calls) s =
      after_call call.name
        (call_application_tool call.name (record s { trace = s.trace ++ call.name ∷ [] }))
        (λ t. call_tools calls t)

  module _ (provider : LlmProvider) where
    unfoldable pub request_for : Bool → Session → ToolRequest
    request_for first_turn s = record {
      messages = s.messages;
      tools = if first_turn then "getOntology" ∷ [] else declared_tools;
      tool_choice = if first_turn then some ("getOntology" ∷ []) else none;
    }

    abbrev or_apology : String → String
    or_apology text =
        if text == ""
        then "I could not explain the workspace state from the available evidence."
        else text

    abbrev pub after_tools : (Session → Out Answer) → Out (List ToolResponse) → Out Answer
    after_tools next (ok responses, s) = next (push (tool_responses responses) s)
    after_tools next (threw e, s) = (threw e, s)

    abbrev pub after_calls :
        (Session → Out Answer) → GenerateWithToolsResult → List LlmToolCall → Session → Out Answer
    after_calls next result [] s =
        (ok (record { answer = or_apology result.text; trace = s.trace }), s)
    after_calls next result (call ∷ calls) s =
        after_tools next (call_tools (call ∷ calls) (push_assistant result.assistant_message s))

    abbrev pub after_generate :
        (Session → Out Answer) → Result GenerateWithToolsResult → Session → Out Answer
    after_generate next (threw e) s = (threw e, s)
    after_generate next (ok result) s = after_calls next result result.tool_calls s

    -- The turns that are left, and whether this is the first one.
    unfoldable pub run_turns : ℕ → Bool → Session → Out Answer
    unfolding call_tools request_for
    run_turns zero first_turn s = (threw (provider.id <> " exceeded the tool-call limit."), s)
    run_turns (suc turns) first_turn s =
        after_generate (λ t. run_turns turns false t)
          (provider.generate_with_tools (request_for first_turn s))
          (record s { asked = s.asked + 1 })

    unfoldable pub chat : String → Out Answer
    unfolding run_turns
    chat text = run_turns 7 true (started text)
