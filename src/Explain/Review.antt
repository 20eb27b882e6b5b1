-- ===== src/Explain/Review.antt =====
-- lib/ai/llm/explain-review.ts: the optional reviews by a language model, and what is left of them.
use semantic_layer_explore.Prelude.{
  String, Bool, false, ◌&&◌, not, Option, none, some, List, [], ◌∷◌, ◌++◌, ◌==◌, all, any, filter,
  length, ltb, ◌+◌, or_else, if◌then◌else◌,
}
use semantic_layer_explore.Js.Text.{◌<>◌}
use semantic_layer_explore.Js.Runtime.{Runtime, Environment}
use semantic_layer_explore.Js.Result.{Result, ok, threw, ◌>>=◌, otherwise}
use semantic_layer_explore.Api.Gemini.Vertex.{Files, get_gemini_configuration}
use semantic_layer_explore.Explain.Trace.{
  TraceCompleteness, EvidenceReviewer, sensor, rule, execution, same_reviewer, TraceEvidence,
  CausalStep, CausalTrace, EvidenceFinding, EvidenceReview, CriticReview, parse_evidence_review,
  parse_critic_review, has, ids_of,
}

-- What a reviewer may see of a trace.
pub record TraceView : Type 0 where
  pub event_id : String
  pub completeness : TraceCompleteness
  pub missing : List String
  pub causal_steps : List CausalStep
  pub evidence : List TraceEvidence

pub record ReviewRequest : Type 0 where
  pub reviewer : EvidenceReviewer
  pub allowed_evidence_ids : List String
  pub trace : TraceView
  pub deterministic_fallback : EvidenceReview

pub record CriticRequest : Type 0 where
  pub allowed_evidence_ids : List String
  pub trace : CausalTrace
  pub reviewer_findings : List EvidenceReview
  pub deterministic_fallback : CriticReview

-- The model: `generateStructured` with the two schemas, and the files that Gemini's credentials are
-- read from, which can fail.
pub record Llm : Type 0 where
  pub review : ReviewRequest → Result EvidenceReview
  pub critic : CriticRequest → Result CriticReview
  pub files : Files

abbrev trimmed : Runtime → Option String → Option String
trimmed rt none = none
trimmed rt (some s) = some (rt.lower (rt.trim s))

-- `process.env.EXPLAIN_LLM_REVIEW?.trim().toLowerCase() === "enabled"`
unfoldable pub is_llm_explain_review_enabled : Runtime → Environment → Bool
is_llm_explain_review_enabled rt env =
    or_else (trimmed rt (env "EXPLAIN_LLM_REVIEW")) "" == "enabled"

abbrev or_gemini : String → String
or_gemini s = if s == "" then "gemini" else s

-- `getLlmProviderConfiguration().configured`
unfoldable pub is_configured : Runtime → Environment → Llm → Result Bool
unfolding ◌>>=◌ get_gemini_configuration
is_configured rt env llm =
    let provider = or_gemini (or_else (trimmed rt (env "LLM_PROVIDER")) "") in
    if provider == "gemini"
    then (get_gemini_configuration rt env llm.files >>= λ gemini. ok gemini.configured)
    else threw ("Unsupported LLM provider: " <> provider)

unfoldable pub is_llm_explain_review_active : Runtime → Environment → Llm → Result Bool
unfolding is_llm_explain_review_enabled is_configured
is_llm_explain_review_active rt env llm =
    if is_llm_explain_review_enabled rt env then is_configured rt env llm else ok false

abbrev evidence_of : EvidenceReviewer → List String
evidence_of sensor = "trigger-reading" ∷ []
evidence_of rule = "matched-rule" ∷ []
evidence_of execution = "device-execution" ∷ []

unfoldable pub bounded_evidence : CausalTrace → EvidenceReviewer → TraceView
unfolding filter any
bounded_evidence trace agent = record {
  event_id = trace.event_id;
  completeness = trace.completeness;
  missing = trace.missing;
  causal_steps = filter (λ step. same_reviewer step.type agent) trace.causal_steps;
  evidence = filter (λ item. has (evidence_of agent) item.id) trace.evidence;
}

-- `item.evidenceIds.length > 0 && item.evidenceIds.every((id) => allowedEvidenceIds.has(id))`
unfoldable pub cites_allowed : List String → EvidenceFinding → Bool
unfolding any all
cites_allowed allowed item = ltb 0 (length item.evidence_ids) && all (has allowed) item.evidence_ids

unfoldable pub constrain_llm_review :
    EvidenceReview → EvidenceReviewer → List String → EvidenceReview → Result EvidenceReview
unfolding cites_allowed filter
constrain_llm_review review agent allowed fallback =
    if not (same_reviewer review.agent agent)
    then ok fallback
    else let findings = filter (cites_allowed allowed) review.findings in
      parse_evidence_review (record {
        agent = agent;
        findings = findings;
        uncertainties =
            review.uncertainties
            ++ (if ltb (length findings) (length review.findings)
                then "Some LLM claims were removed because they cited unavailable evidence." ∷ []
                else []);
      })

unfoldable pub constrain_critic_review : CriticReview → List String → Result CriticReview
unfolding cites_allowed filter
constrain_critic_review review allowed =
    let verified = filter (cites_allowed allowed) review.verified_claims in
    let rejected = filter (cites_allowed allowed) review.rejected_claims in
    parse_critic_review (record {
      verified_claims = verified;
      rejected_claims = rejected;
      uncertainties =
          review.uncertainties
          ++ (if ltb (length verified + length rejected)
                (length review.verified_claims + length review.rejected_claims)
              then "Some LLM critic claims were removed because they cited unavailable evidence."
                ∷ []
              else []);
    })

module _ (rt : Runtime) (env : Environment) (llm : Llm) where
  unfoldable pub review_evidence_with_optional_llm :
      EvidenceReviewer → CausalTrace → EvidenceReview → Result EvidenceReview
  unfolding is_llm_explain_review_enabled is_configured bounded_evidence constrain_llm_review
  review_evidence_with_optional_llm agent trace deterministic =
      if not (is_llm_explain_review_enabled rt env) then ok deterministic else do
        configured ← is_configured rt env llm
        if not configured
            then ok deterministic
            else let view = bounded_evidence trace agent in
              let allowed = ids_of view.evidence in
              otherwise
                (do
                  review ← llm.review (record {
                    reviewer = agent;
                    allowed_evidence_ids = allowed;
                    trace = view;
                    deterministic_fallback = deterministic;
                  })
                  constrain_llm_review review agent allowed deterministic)
                deterministic

  unfoldable pub review_critic_with_optional_llm :
      CausalTrace → List EvidenceReview → CriticReview → Result CriticReview
  unfolding is_llm_explain_review_enabled is_configured constrain_critic_review
  review_critic_with_optional_llm trace reviews deterministic =
      if not (is_llm_explain_review_enabled rt env) then ok deterministic else do
        configured ← is_configured rt env llm
        if not configured
            then ok deterministic
            else let allowed = ids_of trace.evidence in
              otherwise
                (do
                  review ← llm.critic (record {
                    allowed_evidence_ids = allowed;
                    trace = trace;
                    reviewer_findings = reviews;
                    deterministic_fallback = deterministic;
                  })
                  constrain_critic_review review allowed)
                deterministic
