-- ===== src/Tests/Explain.antt =====
-- The theorems on explanations, at an event whose trace has one reading, with a model that invents
-- evidence.
use semantic_layer_explore.Prelude.{
  String, ◌≡◌, ◌≢◌, refl, ap, true, false, none, some, [], ◌∷◌, all, ◌==◌, if◌then◌else◌,
}
use semantic_layer_explore.Js.Json.{end}
use semantic_layer_explore.Js.Runtime.{Environment}
use semantic_layer_explore.Js.Result.{Result, ok, threw}
use semantic_layer_explore.Api.Gemini.Vertex.{Files}
use semantic_layer_explore.Explain.Trace.{sensor, proven, partial, CausalTrace, EvidenceFinding}
use semantic_layer_explore.Explain.Review.{Llm, is_llm_explain_review_enabled, is_configured}
use semantic_layer_explore.Explain.Workflow.{ExplainEventWorkflowResult, run_explain_event_workflow}
use semantic_layer_explore.Explain.Explanation.{
  IsExplanation, run_explain_event_workflow-IsExplanation,
}
use semantic_layer_explore.Api.RateLimit.{Limits}
use semantic_layer_explore.Explain.Total.{is_whole, run_explain_event_workflow-total}
use semantic_layer_explore.Explain.Fallback.{failing, run_explain_event_workflow-fallback}
use semantic_layer_explore.Tests.Data.{runtime}

abbrev trace : CausalTrace
trace = record {
  event_id = "ev-1";
  explainable = true;
  completeness = partial;
  title = "led on";
  summary = "";
  details = end;
  missing = "matched rule" ∷ [];
  evidence =
      record {
        id = "trigger-reading";
        label = "Trigger";
        support = proven;
        event_id = none;
        event_type = none;
        detail = "32 celsius";
      }
      ∷ [];
  causal_steps = [];
}

abbrev fetch_trace : String → Result CausalTrace
fetch_trace id = if id == "ev-1" then ok trace else threw "Unknown event"

abbrev invented : EvidenceFinding
invented = record { claim = "a ghost"; evidence_ids = "ghost" ∷ []; support = proven }

abbrev files : Files
files = record {
  resolve = λ path. path;
  read = λ path. some (ok "{}");
  read_credentials = λ json. record {
    client_email = some "a@b";
    private_key = some "key";
    project_id = none;
    token_uri = some "https://t";
  };
}

-- Answers as another reviewer than the asked one for two of the three.
abbrev model : Llm
model = record {
  review = λ request. ok (record { agent = sensor; findings = invented ∷ []; uncertainties = [] });
  critic = λ request. threw "timeout";
  files = files;
}

abbrev on : Environment
on name =
    if name == "EXPLAIN_LLM_REVIEW"
    then some "enabled"
    else if name == "GOOGLE_APPLICATION_CREDENTIALS"
    then some "key.json"
    else if name == "GOOGLE_CLOUD_PROJECT"
    then some "workspace"
    else none

abbrev off : Environment
off name = none

model_configured : is_configured runtime on model ≡ ok true
unfolding is_configured
model_configured = refl

all_whole : all is_whole trace.evidence ≡ true
unfolding all
all_whole = refl

abbrev event_name : String
event_name = "ev-1"

named : event_name ≢ ""
named e = cc (ap (λ k. k == "") e)

run_explain_event_workflow-total_example :
    (r : ExplainEventWorkflowResult) × (run_explain_event_workflow runtime on model fetch_trace
        "ev-1"
      ≡ ok r)
run_explain_event_workflow-total_example =
    run_explain_event_workflow-total runtime on model true model_configured fetch_trace "ev-1" trace
      named refl all_whole

-- The explanation that the theorem gives.
abbrev explanation : ExplainEventWorkflowResult
explanation =
    (run_explain_event_workflow-total runtime on model true model_configured fetch_trace "ev-1"
      trace named refl all_whole).0

explained : run_explain_event_workflow runtime on model fetch_trace "ev-1" ≡ ok explanation
explained =
    (run_explain_event_workflow-total runtime on model true model_configured fetch_trace "ev-1"
      trace named refl all_whole).1

run_explain_event_workflow-IsExplanation_example :
    (fetch_trace "ev-1" ≡ ok explanation.trace) × IsExplanation explanation.trace explanation
run_explain_event_workflow-IsExplanation_example =
    run_explain_event_workflow-IsExplanation runtime on model fetch_trace "ev-1" explanation
      explained

failing_configured : is_configured runtime on (failing "timeout" files) ≡ ok true
unfolding is_configured
failing_configured = refl

is_off : is_llm_explain_review_enabled runtime off ≡ false
unfolding is_llm_explain_review_enabled
is_off = refl

run_explain_event_workflow-fallback_example :
    run_explain_event_workflow runtime on (failing "timeout" files) fetch_trace "ev-1"
    ≡ run_explain_event_workflow runtime off model fetch_trace "ev-1"
run_explain_event_workflow-fallback_example =
    run_explain_event_workflow-fallback runtime on off "timeout" files true model failing_configured
      is_off fetch_trace "ev-1"

-- A process that has not counted a request.
abbrev no_counts : Limits
no_counts = record { local_counts = []; edge = none }
