-- ===== src/Explain/Workflow.antt =====
-- lib/explain/workflow.ts: the reviews without a model, the check of their evidence, and the steps of
-- the workflow. A step that throws makes the workflow fail.
use semantic_layer_explore.Prelude.{
  String, Bool, ◌||◌, not, Option, none, some, List, [], ◌∷◌, ◌++◌, ◌==◌, all, any, filter, find,
  map, if◌then◌else◌,
}
use semantic_layer_explore.Js.Text.{◌<>◌}
use semantic_layer_explore.Js.Runtime.{Runtime, Environment}
use semantic_layer_explore.Js.Result.{Result, ok, threw, ◌>>=◌}
use semantic_layer_explore.Explain.Trace.{
  EvidenceReviewer, sensor, rule, execution, TraceEvidence, CausalTrace, EvidenceFinding,
  EvidenceReview, CriticReview, parse_evidence_review, parse_critic_review, finding, has, ids_of,
  is_filled,
}
use semantic_layer_explore.Explain.Review.{
  Llm, review_evidence_with_optional_llm, review_critic_with_optional_llm,
}

unfoldable pub finding_of : TraceEvidence → EvidenceFinding
unfolding finding
finding_of item = finding item.detail (item.id ∷ []) item.support

-- One piece of evidence at most: its finding, or what is missing.
abbrev pub single_review : EvidenceReviewer → Option TraceEvidence → String → Result EvidenceReview
single_review agent none missing =
    parse_evidence_review (record { agent = agent; findings = []; uncertainties = missing ∷ [] })
single_review agent (some item) missing =
    parse_evidence_review
      (record { agent = agent; findings = finding_of item ∷ []; uncertainties = [] })

unfoldable pub review_sensor_evidence : CausalTrace → Result EvidenceReview
unfolding finding_of find
review_sensor_evidence trace =
    single_review sensor (find (λ item. item.id == "trigger-reading") trace.evidence)
      "No linked trigger sensor reading was proven."

unfoldable pub review_rule_evidence : CausalTrace → Result EvidenceReview
unfolding finding_of find
review_rule_evidence trace =
    single_review rule (find (λ item. item.id == "matched-rule") trace.evidence)
      "No matched rule event was proven for this action."

abbrev pub is_execution : TraceEvidence → Bool
is_execution item = item.id == "device-execution" || item.id == "command-failure"

abbrev none_found : List TraceEvidence → List String
none_found [] = "No valid device execution payload was found." ∷ []
none_found (item ∷ items) = []

unfoldable pub review_execution_evidence : CausalTrace → Result EvidenceReview
unfolding finding_of filter
review_execution_evidence trace =
    let evidence = filter is_execution trace.evidence in
    parse_evidence_review (record {
      agent = execution;
      findings = map finding_of evidence;
      uncertainties = none_found evidence;
    })

-- `reviews.flatMap((review) => review.findings)`
abbrev pub findings_of : List EvidenceReview → List EvidenceFinding
findings_of [] = []
findings_of (r ∷ rs) = r.findings ++ findings_of rs

abbrev uncertainties_of : List EvidenceReview → List String
uncertainties_of [] = []
uncertainties_of (r ∷ rs) = r.uncertainties ++ uncertainties_of rs

unfoldable pub verify_evidence : CausalTrace → List EvidenceReview → Result CriticReview
unfolding filter all any
verify_evidence trace reviews =
    let available = ids_of trace.evidence in
    let findings = findings_of reviews in
    parse_critic_review (record {
      verified_claims = filter (λ item. all (has available) item.evidence_ids) findings;
      rejected_claims =
          filter (λ item. any (λ id. not (has available id)) item.evidence_ids) findings;
      uncertainties =
          map (λ item. "Missing " <> (item <> ".")) trace.missing ++ uncertainties_of reviews;
    })

pub record AgentFindings : Type 0 where
  pub sensor : EvidenceReview
  pub rule : EvidenceReview
  pub execution : EvidenceReview

-- The trace, the findings and the critic; the list of stages is the same in every result.
pub record ExplainEventWorkflowResult : Type 0 where
  pub trace : CausalTrace
  pub agent_findings : AgentFindings
  pub critic : CriticReview

module _ (rt : Runtime) (env : Environment) (llm : Llm) where
  -- The three steps that run in parallel, and the parse of their outputs.
  unfoldable pub parallel_reviews : CausalTrace → Result AgentFindings
  unfolding review_sensor_evidence review_rule_evidence review_execution_evidence
      review_evidence_with_optional_llm
  parallel_reviews trace = do
    sensor_fallback ← review_sensor_evidence trace
    sensor_review ← review_evidence_with_optional_llm rt env llm sensor trace sensor_fallback
    rule_fallback ← review_rule_evidence trace
    rule_review ← review_evidence_with_optional_llm rt env llm rule trace rule_fallback
    execution_fallback ← review_execution_evidence trace
    execution_review ←
        review_evidence_with_optional_llm rt env llm execution trace execution_fallback
    sensor_parsed ← parse_evidence_review sensor_review
    rule_parsed ← parse_evidence_review rule_review
    execution_parsed ← parse_evidence_review execution_review
    ok (record { sensor = sensor_parsed; rule = rule_parsed; execution = execution_parsed })

  unfoldable pub critic_step : CausalTrace → AgentFindings → Result ExplainEventWorkflowResult
  unfolding verify_evidence review_critic_with_optional_llm
  critic_step trace reviews = do
    let list = reviews.sensor ∷ reviews.rule ∷ reviews.execution ∷ []
    deterministic ← verify_evidence trace list
    critic ← review_critic_with_optional_llm rt env llm trace list deterministic
    ok (record { trace = trace; agent_findings = reviews; critic = critic })

  abbrev pub succeeded : {A : Type 0} → Result A → Result A
  succeeded (ok a) = ok a
  succeeded (threw e) = threw "Explain Event workflow failed with status: failed"

  -- `fetch_trace` is `buildCausalTrace`, the answer of the gateway.
  unfoldable pub run_explain_event_workflow :
      (String → Result CausalTrace) → String → Result ExplainEventWorkflowResult
  unfolding parallel_reviews critic_step
  run_explain_event_workflow fetch_trace event_id = succeeded (
      if not (is_filled event_id) then threw "Invalid input" else do
        trace ← fetch_trace event_id
        reviews ← parallel_reviews trace
        critic_step trace reviews)
