-- ===== src/Explain/Grounded.antt =====
-- The reviews of a trace, with and without a language model, cite its evidence.
use semantic_layer_explore.Prelude.{
  String, ◌≡◌, refl, true, not, Option, none, some, List, [], ◌∷◌, ◌==◌, arith, filter, map, All,
  Member, filter-Member,
}
use semantic_layer_explore.Prelude.{first, later}
use semantic_layer_explore.Js.Runtime.{Runtime, Environment}
use semantic_layer_explore.Js.Result.{
  ok, Holds, Holds-otherwise, Holds-if, Holds-ok, Holds-bind_any,
}
use semantic_layer_explore.Explain.Trace.{
  EvidenceReviewer, sensor, rule, execution, same_reviewer, TraceEvidence, CausalTrace,
  EvidenceFinding, EvidenceReview, finding, ids_of,
}
use semantic_layer_explore.Explain.Review.{
  Llm, is_llm_explain_review_enabled, is_configured, bounded_evidence, cites_allowed,
  constrain_llm_review, review_evidence_with_optional_llm,
}
use semantic_layer_explore.Explain.Workflow.{
  finding_of, single_review, review_sensor_evidence, review_rule_evidence,
  review_execution_evidence, is_execution,
}
use semantic_layer_explore.Explain.Evidence.{
  IsGrounded, IsReviewOf, filter_ids, filter-All, find-Member, ids_of-Member, all-has, All-of,
  parse-Holds,
}

module _ (trace : CausalTrace) where
  -- Ids that are all in the evidence.
  abbrev pub Within : List String → Type 0
  Within allowed = (id : String) → Member id allowed → Member id (ids_of trace.evidence)

  pub cites-IsGrounded :
      (allowed : List String)
      → Within allowed
      → (f : EvidenceFinding) → cites_allowed allowed f ≡ true
      → IsGrounded trace f
  unfolding cites_allowed
  cites-IsGrounded allowed within f h =
      (ground arith, All-of f.evidence_ids within (all-has allowed f.evidence_ids (ground arith)))

  constrain-IsReviewOf :
      (review : EvidenceReview) (agent : EvidenceReviewer) (allowed : List String)
      (fallback : EvidenceReview)
      → Within allowed
      → IsReviewOf trace agent fallback
      → Holds (IsReviewOf trace agent) (constrain_llm_review review agent allowed fallback)
  unfolding constrain_llm_review
  constrain-IsReviewOf review agent allowed fallback within h =
      Holds-if (IsReviewOf trace agent) (not (same_reviewer review.agent agent)) (ok fallback) _
        (Holds-ok (IsReviewOf trace agent) fallback h)
        (parse-Holds (IsReviewOf trace agent) _ (
          refl,
          filter-All (IsGrounded trace) (cites_allowed allowed) review.findings
              (cites-IsGrounded allowed within),
        ))

  module _ (rt : Runtime) (env : Environment) (llm : Llm) where
    bounded-Within :
        (agent : EvidenceReviewer) → Within (ids_of (bounded_evidence trace agent).evidence)
    unfolding bounded_evidence
    bounded-Within agent id h = filter_ids _ trace.evidence h

    pub llm-IsReviewOf :
        (agent : EvidenceReviewer) (fallback : EvidenceReview)
        → IsReviewOf trace agent fallback
        → Holds
            (IsReviewOf trace agent)
            (review_evidence_with_optional_llm rt env llm agent trace fallback)
    unfolding review_evidence_with_optional_llm
    llm-IsReviewOf agent fallback h =
        let Q = IsReviewOf trace agent in
        Holds-if Q (not (is_llm_explain_review_enabled rt env)) (ok fallback) _
          (Holds-ok Q fallback h)
          (Holds-bind_any Q (is_configured rt env llm) _ (λ configured.
            Holds-if Q (not configured) (ok fallback) _ (Holds-ok Q fallback h) (
              Holds-otherwise Q _ fallback
                (Holds-bind_any Q _ _ (λ review.
                  constrain-IsReviewOf review agent (ids_of (bounded_evidence trace agent).evidence)
                    fallback (bounded-Within agent) h))
                h)))

  single-IsReviewOf :
      (agent : EvidenceReviewer) (o : Option TraceEvidence) (missing : String)
      → ((item : TraceEvidence) → o ≡ some item → Member item trace.evidence)
      → Holds (IsReviewOf trace agent) (single_review agent o missing)
  unfolding finding_of finding
  single-IsReviewOf agent none missing k = parse-Holds (IsReviewOf trace agent) _ (refl, tt)
  single-IsReviewOf agent (some item) missing k =
      parse-Holds (IsReviewOf trace agent) _
        (refl, ((omega arith, (ids_of-Member trace.evidence (k item refl), tt)), tt))

  map-IsGrounded :
      (items : List TraceEvidence)
      → ((item : TraceEvidence) → Member item items → Member item trace.evidence)
      → All (IsGrounded trace) (map finding_of items)
  unfolding finding_of finding
  map-IsGrounded [] k = tt
  map-IsGrounded (item ∷ items) k = (
    (omega arith, (ids_of-Member trace.evidence (k item (first refl)), tt)),
    map-IsGrounded items (λ i m. k i (later m)),
  )

  pub sensor-IsReviewOf : Holds (IsReviewOf trace sensor) (review_sensor_evidence trace)
  unfolding review_sensor_evidence
  sensor-IsReviewOf =
      single-IsReviewOf sensor _ _
        (λ item e. find-Member (λ i. i.id == "trigger-reading") trace.evidence e)

  pub rule-IsReviewOf : Holds (IsReviewOf trace rule) (review_rule_evidence trace)
  unfolding review_rule_evidence
  rule-IsReviewOf =
      single-IsReviewOf rule _ _
        (λ item e. find-Member (λ i. i.id == "matched-rule") trace.evidence e)

  pub execution-IsReviewOf : Holds (IsReviewOf trace execution) (review_execution_evidence trace)
  unfolding review_execution_evidence
  execution-IsReviewOf = parse-Holds (IsReviewOf trace execution) _ (
    refl,
    map-IsGrounded (filter is_execution trace.evidence)
        (λ item m. (filter-Member is_execution trace.evidence m).0),
  )
