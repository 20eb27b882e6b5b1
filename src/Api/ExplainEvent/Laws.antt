-- ===== src/Api/ExplainEvent/Laws.antt =====
-- app/api/ai/explain-event/route.ts: a request is answered with an explanation, or with the limit
-- of the day.
use semantic_layer_explore.Prelude.{
  ℕ, String, Bool, true, false, Option, some, [], ◌≡◌, refl, arith, Bool-cases, inl, inr,
}
use semantic_layer_explore.Js.Runtime.{Runtime, Environment}
use semantic_layer_explore.Js.Result.{Result, ok}
use semantic_layer_explore.Explain.Trace.{CausalTrace}
use semantic_layer_explore.Explain.Review.{Llm, is_llm_explain_review_active}
use semantic_layer_explore.Explain.Workflow.{ExplainEventWorkflowResult, run_explain_event_workflow}
use semantic_layer_explore.Api.RateLimit.{explain, Limits, Allowance, consume_daily_allowance}
use semantic_layer_explore.Api.ExplainEvent.{
  ExplainResponse, explanation_body, explained, limited, explain_allowed, explain_active,
  explain_event,
}

-- The ends of a request: it is explained without a model, and nothing is counted; or it is counted
-- and explained; or the limit is reached, and nothing is counted.
pub data IsServed (run : Result ExplainEventWorkflowResult) (enabled : Bool)
    (counted : Allowance × Limits) (limits : Limits) (answer : ExplainResponse × Limits)
    : Type 0 where
  explains_alone :
      (r : ExplainEventWorkflowResult)
      → run ≡ ok r
      → answer ≡ (explained [] (ok r), limits)
      → IsServed run enabled counted limits answer
  refuses :
      enabled ≡ true
      → counted.0.allowed ≡ false
      → answer.0.status ≡ 429
      → answer.1 ≡ limits
      → IsServed run enabled counted limits answer
  explains :
      (r : ExplainEventWorkflowResult)
      → run ≡ ok r
      → enabled ≡ true
      → counted.0.allowed ≡ true
      → answer.0.status ≡ 200
      → answer.0.body ≡ explanation_body r
      → answer.1 ≡ counted.1
      → IsServed run enabled counted limits answer

module _ (rt : Runtime) (env : Environment) (header : String → Option String) (now : ℕ)
    (limits : Limits) where
  abbrev pub counting : Allowance × Limits
  counting = consume_daily_allowance rt env explain header now limits

  counting-refused : counting.0.allowed ≡ false → counting.1 ≡ limits
  unfolding consume_daily_allowance
  counting-refused e = ground arith

  module _ (llm : Llm) (fetch_trace : String → Result CausalTrace) (event_id : String)
      (r : ExplainEventWorkflowResult)
      (run : run_explain_event_workflow rt env llm fetch_trace event_id ≡ ok r) where
    allowed-IsServed :
        IsServed
          (run_explain_event_workflow rt env llm fetch_trace event_id)
          true
          counting
          limits
          (explain_allowed rt env llm header now fetch_trace event_id counting)
    unfolding explain_allowed limited
    allowed-IsServed = elim (Bool-cases counting.0.allowed) [
      | inl free ↦ explains r run refl free (rw (free, run) refl) (rw (free, run) refl) refl
      | inr full ↦ refuses refl full (rw full refl) (counting-refused full)
    ]

    active-IsServed :
        (active : Bool)
        → IsServed
            (run_explain_event_workflow rt env llm fetch_trace event_id)
            active
            counting
            limits
            (explain_active rt env llm header now fetch_trace event_id limits (ok active))
    active-IsServed true = allowed-IsServed
    active-IsServed false = explains_alone r run (rw run refl)

    -- A request is counted where the model's reviews are enabled and the model is configured.
    pub served :
        (active : Bool)
        → is_llm_explain_review_active rt env llm ≡ ok active
        → IsServed
            (run_explain_event_workflow rt env llm fetch_trace event_id)
            active
            counting
            limits
            (explain_event rt env llm header now fetch_trace (ok (some event_id)) limits)
    unfolding explain_event
    served active h = rw h (active-IsServed active)
