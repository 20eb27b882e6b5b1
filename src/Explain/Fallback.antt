-- ===== src/Explain/Fallback.antt =====
-- A language model that fails leaves the explanation that is given without one.
use semantic_layer_explore.Prelude.{
  String, ◌≡◌, refl, ◌∙◌, sym, Bool, false, not, List, [], ◌∷◌, ap, arith, if◌then◌else◌,
  Bool-cases, inl, inr,
}
use semantic_layer_explore.Js.Runtime.{Runtime, Environment}
use semantic_layer_explore.Js.Result.{Result, ok, threw, ◌>>=◌, otherwise, bind-cong}
use semantic_layer_explore.Api.Gemini.Vertex.{Files}
use semantic_layer_explore.Explain.Trace.{
  is_filled, EvidenceReviewer, sensor, rule, execution, CausalTrace, EvidenceReview, CriticReview,
}
use semantic_layer_explore.Explain.Review.{
  Llm, is_llm_explain_review_enabled, is_configured, review_evidence_with_optional_llm,
  review_critic_with_optional_llm,
}
use semantic_layer_explore.Explain.Workflow.{
  AgentFindings, succeeded, ExplainEventWorkflowResult, parallel_reviews, critic_step,
  run_explain_event_workflow,
}

-- A model whose calls all fail.
abbrev pub failing : String → Files → Llm
failing e files = record { review = λ request. threw e; critic = λ request. threw e; files = files }

module _ (rt : Runtime) (env : Environment) (llm : Llm) where
  -- Nothing asks the model.
  abbrev IsOff : Type 0
  IsOff = is_llm_explain_review_enabled rt env ≡ false

  off_review :
      IsOff
      → (agent : EvidenceReviewer) (t : CausalTrace) (d : EvidenceReview)
      → review_evidence_with_optional_llm rt env llm agent t d ≡ ok d
  unfolding review_evidence_with_optional_llm
  off_review off agent t d = rw off refl

  off_critic :
      IsOff
      → (t : CausalTrace) (rs : List EvidenceReview) (d : CriticReview)
      → review_critic_with_optional_llm rt env llm t rs d ≡ ok d
  unfolding review_critic_with_optional_llm
  off_critic off t rs d = rw off refl

module _ (rt : Runtime) (env : Environment) (e : String) (files : Files) (b : Bool)
    (known : is_configured rt env (failing e files) ≡ ok b) where
  failed_review :
      (agent : EvidenceReviewer) (t : CausalTrace) (d : EvidenceReview)
      → review_evidence_with_optional_llm rt env (failing e files) agent t d ≡ ok d
  unfolding review_evidence_with_optional_llm ◌>>=◌ otherwise
  failed_review agent t d = elim (Bool-cases (is_llm_explain_review_enabled rt env)) [
    | inl on ↦ rw (on, known) (ground arith)
    | inr off ↦ rw off refl
  ]

  failed_critic :
      (t : CausalTrace) (rs : List EvidenceReview) (d : CriticReview)
      → review_critic_with_optional_llm rt env (failing e files) t rs d ≡ ok d
  unfolding review_critic_with_optional_llm ◌>>=◌ otherwise
  failed_critic t rs d = elim (Bool-cases (is_llm_explain_review_enabled rt env)) [
    | inl on ↦ rw (on, known) (ground arith)
    | inr off ↦ rw off refl
  ]

-- Two settings under which the reviews are the same give the same explanations.
module _ (rt : Runtime) (env env' : Environment) (llm llm' : Llm)
    (reviews : (agent : EvidenceReviewer) (t : CausalTrace) (d : EvidenceReview)
      → review_evidence_with_optional_llm rt env llm agent t d
        ≡ review_evidence_with_optional_llm rt env' llm' agent t d)
    (critics : (t : CausalTrace) (rs : List EvidenceReview) (d : CriticReview)
      → review_critic_with_optional_llm rt env llm t rs d
        ≡ review_critic_with_optional_llm rt env' llm' t rs d) where
  same_reviews : (t : CausalTrace) → parallel_reviews rt env llm t ≡ parallel_reviews rt env' llm' t
  unfolding parallel_reviews
  same_reviews t = bind-cong refl λ sf. bind-cong (reviews sensor t sf) λ s. bind-cong refl λ rf.
      bind-cong (reviews rule t rf)
        λ r. bind-cong refl λ ef. bind-cong (reviews execution t ef) λ x. refl

  same_critic :
      (t : CausalTrace) (r : AgentFindings)
      → critic_step rt env llm t r ≡ critic_step rt env' llm' t r
  unfolding critic_step
  same_critic t r =
      bind-cong refl λ d. bind-cong (critics t (r.sensor ∷ r.rule ∷ r.execution ∷ []) d) λ c. refl

  succeeded_same :
      {r s : Result ExplainEventWorkflowResult}
      → r ≡ s
      → succeeded rt env llm r ≡ succeeded rt env' llm' s
  succeeded_same {r} {s} e = ap (succeeded rt env llm) e ∙ go s
    where
      go :
          (q : Result ExplainEventWorkflowResult)
          → succeeded rt env llm q ≡ succeeded rt env' llm' q
      go (ok a) = refl
      go (threw m) = refl

  same_runs :
      (fetch : String → Result CausalTrace) (event_id : String)
      → run_explain_event_workflow rt env llm fetch event_id
        ≡ run_explain_event_workflow rt env' llm' fetch event_id
  unfolding run_explain_event_workflow
  same_runs fetch event_id = succeeded_same (
      ap
        (λ (r : Result ExplainEventWorkflowResult).
          if not (is_filled event_id) then threw "Invalid input" else r)
        (bind-cong {r = fetch event_id} refl λ t. bind-cong (same_reviews t) λ r. same_critic t r))

-- Where the provider is a known one and its configuration can be read, a model whose every call fails
-- leaves exactly the result that a run gives in which the reviews by a model are turned off, also
-- where that is an error.
pub run_explain_event_workflow-fallback :
    (rt : Runtime) (env off : Environment) (e : String) (files : Files) (b : Bool) (llm : Llm)
    → is_configured rt env (failing e files) ≡ ok b
    → is_llm_explain_review_enabled rt off ≡ false
    → (fetch : String → Result CausalTrace) (event_id : String)
    → run_explain_event_workflow rt env (failing e files) fetch event_id
      ≡ run_explain_event_workflow rt off llm fetch event_id
run_explain_event_workflow-fallback rt env off e files b llm known is_off fetch event_id =
    same_runs rt env off (failing e files) llm
      (λ agent t d.
        failed_review rt env e files b known agent t d
        ∙ sym (off_review rt off llm is_off agent t d))
      (λ t rs d.
        failed_critic rt env e files b known t rs d ∙ sym (off_critic rt off llm is_off t rs d))
      fetch event_id
