-- ===== src/Client/Copilot.antt =====
-- components/ai/ask-ai.tsx: asking a question, explaining an event, and the graph of the workflow.
-- The markup is left out.
pub mod Laws
pub mod Graph
use semantic_layer_explore.Prelude.{
  ℕ, String, Bool, true, false, ◌||◌, not, Option, none, some, List, [], ◌∷◌, ◌++◌, ◌==◌, ◌≡◌, eqb,
  if◌then◌else◌,
}
use semantic_layer_explore.Js.Json.{Json, nil, null, string, object, array, field, end, property}
use semantic_layer_explore.Js.Runtime.{Runtime}
use semantic_layer_explore.Js.Result.{Result, ok, threw}
use semantic_layer_explore.Client.Policy.{Ontology, copilot_query}
use semantic_layer_explore.Client.Consent.{confirm_semantic_action}
use semantic_layer_explore.Client.Action.{
  Request, Reply, Action, ◌>>=◌, ◌>>◌, pure, throw, lift, modify, or_handle, opened,
}

pub record Copilot : Type 0 where
  pub question : String
  pub answer : Json
  pub trace : Json
  pub semantic_trace : List String
  pub loading : Bool
  pub remaining : Json
  pub error : String
  -- the requests sent to the API, except the one that reads the ontology
  pub sent : List Request

pub record Browser : Type 0 where
  pub runtime : Runtime
  pub fetch : Request → Reply
  pub ontology : Option (Result Ontology)
  pub confirm : String → Bool

abbrev null_or : Option Json → Json
null_or none = null
null_or (some value) = value

-- `result.error || fallback`, where the error of a body is a text or missing
abbrev error_or : Option Json → String → String
error_or (some (string error)) fallback = if error == "" then fallback else error
error_or _ fallback = fallback

-- `result.trace || []`, where the trace of a body is an array or missing
abbrev empty_or : Option Json → Json
empty_or (some (array items)) = array items
empty_or _ = array nil

abbrev post : String → String → String → Request
post path key text = record {
  method = "POST";
  path = path;
  body = some (object (field key (string text) end));
}

module _ (w : Browser) where
  unfoldable pub send : Request → Action Copilot (Bool × Result Json)
  send request s = (opened (w.fetch request), record s { sent = s.sent ++ request ∷ [] })

  abbrev pub when_approved :
      {A : Type 0} → Result Bool → Action Copilot (Option A) → Action Copilot (Option A)
  when_approved (threw e) rest s = (threw e, s)
  when_approved (ok false) rest s = (ok none, s)
  when_approved (ok true) rest s = rest s

  -- `const approved = await confirmInspectionTeamQuery(); if (!approved) return;`
  unfoldable pub with_consent : {A : Type 0} → Action Copilot (Option A) → Action Copilot (Option A)
  unfolding confirm_semantic_action
  with_consent rest s =
      let (answer, shown) = confirm_semantic_action w.runtime w.confirm w.ontology copilot_query in
      when_approved answer rest (record s { semantic_trace = shown })

  -- The body of a response that has to be `ok`.
  unfoldable pub request_json : Request → String → Action Copilot (Option Json)
  unfolding ◌>>=◌ send property
  request_json request fallback = do
    reply ← send request
    result ← lift reply.1
    if not reply.0 then throw (error_or (property "error" result) fallback) else pure (some result)

  abbrev show_answer : Option Json → Copilot → Copilot
  show_answer none s = s
  show_answer (some result) s = record s {
    answer = null_or (property "answer" result);
    trace = empty_or (property "trace" result);
    remaining = null_or (property "remaining" result);
  }

  abbrev pub ended : Result (Option Json) × Copilot → Copilot
  ended (ok result, s) = record (show_answer result s) { loading = false }
  ended (threw e, s) = record s { error = e; loading = false }

  unfoldable pub ask : Copilot → Copilot
  unfolding with_consent request_json property
  ask s =
      if w.runtime.trim s.question == "" || s.loading
      then s
      else ended (
          with_consent
            (request_json (post "/api/ai/chat" "question" s.question)
              "BestAiCom AI could not answer.")
            (record s { loading = true; answer = string ""; trace = array nil; error = "" }))

  -- One run of the effect that explains an event, up to its last `await`: `none` where the person
  -- did not approve.
  unfoldable pub explain_event : String → Action Copilot (Option Json)
  unfolding with_consent request_json
  explain_event event_id = with_consent (
      request_json (post "/api/ai/explain-event" "eventId" event_id)
        "Could not explain the selected event.")

-- What the page shows of the runs of the effect, which are numbered. The clean-up of an effect
-- cancels its run before the next one starts.
pub record Explanation : Type 0 where
  pub current : Option ℕ
  pub loading : Bool
  pub result : Option Json
  pub error : String

abbrev pub nothing_explained : Explanation
nothing_explained = record { current = none; loading = false; result = none; error = "" }

unfoldable pub start_run : ℕ → Explanation → Explanation
start_run run s = record s { current = some run; loading = true; result = none; error = "" }

abbrev pub is_cancelled : ℕ → Option ℕ → Bool
is_cancelled run none = true
is_cancelled run (some other) = not (eqb run other)

abbrev pub settled : Result (Option Json) → Explanation → Explanation
settled (ok none) s = record s { loading = false }
settled (ok (some result)) s = record s { loading = false; result = some result }
settled (threw e) s = record s { loading = false; error = e }

-- A run behind its last `await`.
unfoldable pub end_run : ℕ → Result (Option Json) → Explanation → Explanation
end_run run outcome s = if is_cancelled run s.current then s else settled outcome s

-- The runs start and end in any order; `outcome` is how each of them ends.
pub data Shows (outcome : ℕ → Result (Option Json)) : Explanation → Type 0 where
  at_first : Shows outcome nothing_explained
  starts : (s : Explanation) (run : ℕ) → Shows outcome s → Shows outcome (start_run run s)
  ends : (s : Explanation) (run : ℕ) → Shows outcome s → Shows outcome (end_run run (outcome run) s)
