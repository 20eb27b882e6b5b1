-- ===== src/Explain/Explanation.antt =====
-- What an explanation claims is in the evidence of its trace, whatever the language model answers.
use semantic_layer_explore.Prelude.{
  String, ◌≡◌, Bool, not, List, [], ◌∷◌, filter, All, All-append, filter-Member, All-of_members,
}
use semantic_layer_explore.Js.Runtime.{Runtime, Environment}
use semantic_layer_explore.Js.Result.{
  Result, ok, threw, Holds, Holds-otherwise, Holds-if, Holds-ok, Holds-threw, Holds-bind,
  Holds-bind_any, Holds-itself,
}
use semantic_layer_explore.Explain.Trace.{
  sensor, rule, execution, CausalTrace, EvidenceFinding, EvidenceReview, CriticReview, ids_of,
  is_filled,
}
use semantic_layer_explore.Explain.Review.{
  Llm, is_llm_explain_review_enabled, is_configured, cites_allowed, constrain_critic_review,
  review_critic_with_optional_llm,
}
use semantic_layer_explore.Explain.Workflow.{
  findings_of, verify_evidence, AgentFindings, ExplainEventWorkflowResult, parallel_reviews,
  critic_step, succeeded, run_explain_event_workflow,
}
use semantic_layer_explore.Explain.Evidence.{
  IsGrounded, IsReviewOf, filter-All, All-at, parse-Holds, parse_critic-Holds,
}
use semantic_layer_explore.Explain.Grounded.{
  Within, llm-IsReviewOf, sensor-IsReviewOf, rule-IsReviewOf, execution-IsReviewOf,
  cites-IsGrounded,
}

module _ (trace : CausalTrace) where
  abbrev AreGrounded : AgentFindings → Type 0
  AreGrounded r =
      IsReviewOf trace sensor r.sensor
      × IsReviewOf trace rule r.rule
      × IsReviewOf trace execution r.execution

  abbrev IsCritic : CriticReview → Type 0
  IsCritic c = All (IsGrounded trace) c.verified_claims × All (IsGrounded trace) c.rejected_claims

  abbrev pub IsExplanation : ExplainEventWorkflowResult → Type 0
  IsExplanation r = AreGrounded r.agent_findings × IsCritic r.critic

  module _ (rt : Runtime) (env : Environment) (llm : Llm) where
    parallel-AreGrounded : Holds AreGrounded (parallel_reviews rt env llm trace)
    unfolding parallel_reviews
    parallel-AreGrounded = Holds-bind _ AreGrounded _ _ (sensor-IsReviewOf trace) λ sf sh.
        Holds-bind _ AreGrounded _ _ (llm-IsReviewOf trace rt env llm sensor sf sh) λ s si.
          Holds-bind _ AreGrounded _ _ (rule-IsReviewOf trace) λ rf rh.
            Holds-bind _ AreGrounded _ _ (llm-IsReviewOf trace rt env llm rule rf rh) λ r ri.
              Holds-bind _ AreGrounded _ _ (execution-IsReviewOf trace) λ ef eh.
                Holds-bind _ AreGrounded _ _ (llm-IsReviewOf trace rt env llm execution ef eh)
                  λ e ei.
                    Holds-bind _ AreGrounded _ _ (parse-Holds (IsReviewOf trace sensor) s si)
                      λ s' si'.
                        Holds-bind _ AreGrounded _ _ (parse-Holds (IsReviewOf trace rule) r ri)
                          λ r' ri'.
                            Holds-bind _ AreGrounded _ _
                              (parse-Holds (IsReviewOf trace execution) e ei)
                              λ e' ei'. Holds-ok AreGrounded _ (si', ri', ei')

    both_filters :
        (allowed : List String) (review : CriticReview)
        → Within trace allowed
        → Holds IsCritic (constrain_critic_review review allowed)
    unfolding constrain_critic_review
    both_filters allowed review within = parse_critic-Holds IsCritic _ (
      filter-All (IsGrounded trace) (cites_allowed allowed) review.verified_claims
          (cites-IsGrounded trace allowed within),
      filter-All (IsGrounded trace) (cites_allowed allowed) review.rejected_claims
          (cites-IsGrounded trace allowed within),
    )

    filter_kept :
        (p : EvidenceFinding → Bool) (fs : List EvidenceFinding)
        → All (IsGrounded trace) fs
        → All (IsGrounded trace) (filter p fs)
    filter_kept p fs h =
        All-of_members (IsGrounded trace) (filter p fs)
          (λ f m. All-at (IsGrounded trace) fs (filter-Member p fs m).0 h)

    verify-IsCritic :
        (reviews : List EvidenceReview)
        → All (IsGrounded trace) (findings_of reviews)
        → Holds IsCritic (verify_evidence trace reviews)
    unfolding verify_evidence
    verify-IsCritic reviews h =
        parse_critic-Holds IsCritic _
          (filter_kept _ (findings_of reviews) h, filter_kept _ (findings_of reviews) h)

    optional-IsCritic :
        (reviews : List EvidenceReview) (fallback : CriticReview)
        → IsCritic fallback
        → Holds IsCritic (review_critic_with_optional_llm rt env llm trace reviews fallback)
    unfolding review_critic_with_optional_llm
    optional-IsCritic reviews fallback h =
        Holds-if IsCritic (not (is_llm_explain_review_enabled rt env)) (ok fallback) _
          (Holds-ok IsCritic fallback h)
          (Holds-bind_any IsCritic (is_configured rt env llm) _ (λ configured.
            Holds-if IsCritic (not configured) (ok fallback) _ (Holds-ok IsCritic fallback h) (
              Holds-otherwise IsCritic _ fallback
                (Holds-bind_any IsCritic _ _
                  (λ review. both_filters (ids_of trace.evidence) review (λ id m. m)))
                h)))

    critic_step-Holds :
        (Q : ExplainEventWorkflowResult → Type 0) (reviews : AgentFindings)
        → AreGrounded reviews
        → ((c : CriticReview)
            → IsCritic c
            → Q (record { trace = trace; agent_findings = reviews; critic = c }))
        → Holds Q (critic_step rt env llm trace reviews)
    unfolding critic_step
    critic_step-Holds Q reviews h k =
        let list = reviews.sensor ∷ reviews.rule ∷ reviews.execution ∷ [] in
        Holds-bind IsCritic Q (verify_evidence trace list) _
          (verify-IsCritic list (
            All-append (IsGrounded trace) reviews.sensor.findings _ h.0.1 (
              All-append (IsGrounded trace) reviews.rule.findings _ h.1.1
                (All-append (IsGrounded trace) reviews.execution.findings [] h.2.1 tt))))
          (λ fallback below.
            Holds-bind IsCritic Q _ _ (optional-IsCritic list fallback below)
              (λ critic c. Holds-ok Q _ (k critic c)))

module _ (rt : Runtime) (env : Environment) (llm : Llm) where
  succeeded-Holds :
      {A : Type 0} (P : A → Type 0) (r : Result A) → Holds P r → Holds P (succeeded rt env llm r)
  succeeded-Holds P (ok a) h = h
  succeeded-Holds P (threw e) h = Holds-threw P _

  abbrev Explains : (String → Result CausalTrace) → String → ExplainEventWorkflowResult → Type 0
  Explains fetch event_id r = (fetch event_id ≡ ok r.trace) × IsExplanation r.trace r

  run-Holds :
      (fetch : String → Result CausalTrace) (event_id : String)
      → Holds (Explains fetch event_id) (run_explain_event_workflow rt env llm fetch event_id)
  unfolding run_explain_event_workflow
  run-Holds fetch event_id =
      let Q : ExplainEventWorkflowResult → Type 0 = Explains fetch event_id in
      succeeded-Holds Q _ (
        Holds-if Q (not (is_filled event_id)) _ _ (Holds-threw Q "Invalid input") (
          Holds-bind (λ t. fetch event_id ≡ ok t) Q (fetch event_id) _
            (Holds-itself (λ _. Unit {0}) (fetch event_id))
            (λ t e.
              Holds-bind (AreGrounded t) Q _ _ (parallel-AreGrounded t rt env llm)
                (λ reviews h. critic_step-Holds t rt env llm Q reviews h (λ c k. (e, (h, k)))))))

  -- Whatever the language model answers, an explanation that is given is about the trace that was
  -- fetched for the event. Each of its three reviews is by the reviewer it is listed for, and each
  -- finding of theirs and each claim of the critic, verified or rejected, cites some evidence and
  -- only ids of the evidence of that trace.
  pub run_explain_event_workflow-IsExplanation :
      (fetch : String → Result CausalTrace) (event_id : String) (r : ExplainEventWorkflowResult)
      → run_explain_event_workflow rt env llm fetch event_id ≡ ok r
      → (fetch event_id ≡ ok r.trace) × IsExplanation r.trace r
  run_explain_event_workflow-IsExplanation fetch event_id r h = (run-Holds fetch event_id).at r h
