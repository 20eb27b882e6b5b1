-- ===== src/Api/ExplainEvent.antt =====
-- The route of an explanation, app/api/ai/explain-event/route.ts, with the allowance of
-- lib/ai/http.ts and `errorResponse` of lib/server/validation.ts. The schema of the input is
-- checked by a library: the input is the error of reading the request's JSON, or what the schema
-- yields, `none` where it refuses.
pub mod Laws
use semantic_layer_explore.Prelude.{
  ℕ, String, Bool, true, false, Option, none, some, List, [], ◌∷◌, if◌then◌else◌,
}
use semantic_layer_explore.Js.Runtime.{Runtime, Environment}
use semantic_layer_explore.Js.Result.{Result, ok, threw}
use semantic_layer_explore.Explain.Trace.{CausalTrace}
use semantic_layer_explore.Explain.Review.{Llm, is_llm_explain_review_active}
use semantic_layer_explore.Explain.Workflow.{ExplainEventWorkflowResult, run_explain_event_workflow}
use semantic_layer_explore.Api.RateLimit.{explain, Limits, Allowance, consume_daily_allowance}
use semantic_layer_explore.Api.Propose.{rate_limit_headers}

pub data ExplainBody : Type 0 where
  error_body : String → ExplainBody
  explanation_body : ExplainEventWorkflowResult → ExplainBody

pub record ExplainResponse : Type 0 where
  pub status : ℕ
  pub body : ExplainBody
  pub headers : List (String × String)

abbrev pub error_with : ℕ → String → ExplainResponse
error_with status message = record { status = status; body = error_body message; headers = [] }

-- `enforceAllowance` where the allowance is used up.
unfoldable pub limited : Runtime → Allowance → ExplainResponse
unfolding rate_limit_headers
limited rt allowance = record {
  status = 429;
  body = error_body "Daily Explain Why LLM review limit reached. Please try again tomorrow.";
  headers =
      ("retry-after", rt.decimal allowance.reset_seconds) ∷ rate_limit_headers rt allowance.limit 0;
}

abbrev pub explained : List (String × String) → Result ExplainEventWorkflowResult → ExplainResponse
explained headers (threw e) = error_with 500 e
explained headers (ok r) = record { status = 200; body = explanation_body r; headers = headers }

module _ (rt : Runtime) (env : Environment) (llm : Llm) (header : String → Option String) (now : ℕ)
    (fetch_trace : String → Result CausalTrace) where
  -- The handler behind the check of the allowance, which counts the request.
  unfoldable pub explain_allowed : String → Allowance × Limits → ExplainResponse × Limits
  unfolding limited rate_limit_headers run_explain_event_workflow
  explain_allowed event_id (allowance, left) = (
    if allowance.allowed
        then explained (rate_limit_headers rt allowance.limit allowance.remaining)
            (run_explain_event_workflow rt env llm fetch_trace event_id)
        else limited rt allowance,
    left,
  )

  abbrev pub explain_active : String → Limits → Result Bool → ExplainResponse × Limits
  explain_active event_id limits (threw e) = (error_with 500 e, limits)
  explain_active event_id limits (ok true) =
      explain_allowed event_id (consume_daily_allowance rt env explain header now limits)
  explain_active event_id limits (ok false) =
      (explained [] (run_explain_event_workflow rt env llm fetch_trace event_id), limits)

  unfoldable pub explain_event : Result (Option String) → Limits → ExplainResponse × Limits
  unfolding explain_allowed is_llm_explain_review_active consume_daily_allowance
      run_explain_event_workflow
  explain_event (threw e) limits = (error_with 500 e, limits)
  explain_event (ok none) limits = (error_with 400 "Invalid input", limits)
  explain_event (ok (some event_id)) limits =
      explain_active event_id limits (is_llm_explain_review_active rt env llm)
