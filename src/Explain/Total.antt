-- ===== src/Explain/Total.antt =====
-- An event whose trace is well-formed is explained, whatever the language model answers.
use semantic_layer_explore.Prelude.{
  String, ◌≡◌, ◌≢◌, refl, Bool, true, false, ◌&&◌, not, Option, none, some, List, [], ◌∷◌, ◌++◌,
  ◌==◌, eq_iff, arith, Bool-cases, inl, inr, all, filter, find, map,
}
use semantic_layer_explore.Js.Runtime.{Runtime, Environment}
use semantic_layer_explore.Js.Result.{
  Result, ok, ◌>>=◌, Holds, Holds-ok, Holds-threw, Holds-if, Holds-bind_any, Yields, Yields-bind,
  Yields-otherwise, Yields-if,
}
use semantic_layer_explore.Explain.Trace.{
  is_filled, same_reviewer, EvidenceReviewer, sensor, rule, execution, TraceEvidence, CausalTrace,
  EvidenceReview, CriticReview, is_finding, parse_evidence_review, parse_critic_review, finding,
}
use semantic_layer_explore.Explain.Review.{
  Llm, is_llm_explain_review_enabled, is_configured, constrain_llm_review, constrain_critic_review,
  review_evidence_with_optional_llm, review_critic_with_optional_llm,
}
use semantic_layer_explore.Explain.Workflow.{
  AgentFindings, ExplainEventWorkflowResult, parallel_reviews, critic_step,
  run_explain_event_workflow, finding_of, single_review, review_sensor_evidence,
  review_rule_evidence, review_execution_evidence, is_execution, findings_of, verify_evidence,
}

-- Evidence with an id and a detail.
abbrev pub is_whole : TraceEvidence → Bool
is_whole item = is_filled item.detail && is_filled item.id

abbrev Parses : EvidenceReview → Type 0
Parses r = all is_finding r.findings ≡ true

abbrev CriticParses : CriticReview → Type 0
CriticParses r = (all is_finding r.verified_claims && all is_finding r.rejected_claims) ≡ true

parse-Yields : (r : EvidenceReview) → Parses r → Yields Parses (parse_evidence_review r)
unfolding parse_evidence_review
parse-Yields r h = rw h (r, refl, h)

parse_critic-Yields :
    (r : CriticReview) → CriticParses r → Yields CriticParses (parse_critic_review r)
unfolding parse_critic_review
parse_critic-Yields r h = rw h (r, refl, h)

parse-Holds : (r : EvidenceReview) → Holds Parses (parse_evidence_review r)
unfolding parse_evidence_review
parse-Holds r = elim (Bool-cases (all is_finding r.findings)) [
  | inl e ↦ rw e (Holds-ok Parses r e)
  | inr e ↦ rw e (Holds-threw Parses "Invalid input")
]

parse_critic-Holds : (r : CriticReview) → Holds CriticParses (parse_critic_review r)
unfolding parse_critic_review
parse_critic-Holds r =
    elim (Bool-cases (all is_finding r.verified_claims && all is_finding r.rejected_claims)) [
      | inl e ↦ rw e (Holds-ok CriticParses r e)
      | inr e ↦ rw e (Holds-threw CriticParses "Invalid input")
    ]

all-filter :
    {A : Type 0} (q p : A → Bool) (xs : List A) → all q xs ≡ true → all q (filter p xs) ≡ true
unfolding all filter
all-filter q p [] h = refl
all-filter q p (x ∷ xs) h = ground (arith, all-filter q p xs)

all-append :
    {A : Type 0} (q : A → Bool) (xs ys : List A)
    → all q xs ≡ true
    → all q ys ≡ true
    → all q (xs ++ ys) ≡ true
unfolding all
all-append q [] ys h k = k
all-append q (x ∷ xs) ys h k = ground (arith, all-append q xs ys)

all-find :
    (p : TraceEvidence → Bool) (items : List TraceEvidence) {item : TraceEvidence}
    → all is_whole items ≡ true
    → find p items ≡ some item
    → is_whole item ≡ true
unfolding all find
all-find p [] h e = cc e
all-find p (x ∷ items) {item} h e = elim (Bool-cases (p x)) [
  | inl yes_there ↦ ground arith
  | inr not_there ↦ all-find p items {item = item} (ground arith) (ground arith)
]

finding-parses : (item : TraceEvidence) → is_whole item ≡ true → is_finding (finding_of item) ≡ true
unfolding finding_of finding is_finding all
finding-parses item h = ground arith

map-parses :
    (items : List TraceEvidence)
    → all is_whole items ≡ true
    → all is_finding (map finding_of items) ≡ true
unfolding all
map-parses [] h = refl
map-parses (item ∷ items) h = ground (arith, finding-parses item, map-parses items)

single-Yields :
    (agent : EvidenceReviewer) (o : Option TraceEvidence) (missing : String)
    → ((item : TraceEvidence) → o ≡ some item → is_whole item ≡ true)
    → Yields Parses (single_review agent o missing)
unfolding all
single-Yields agent none missing k = parse-Yields _ refl
single-Yields agent (some item) missing k =
    parse-Yields _ (rw (finding-parses item (k item refl)) refl)

constrain-Holds :
    (review : EvidenceReview) (agent : EvidenceReviewer) (allowed : List String)
    (d : EvidenceReview)
    → Parses d
    → Holds Parses (constrain_llm_review review agent allowed d)
unfolding constrain_llm_review
constrain-Holds review agent allowed d h =
    Holds-if Parses (not (same_reviewer review.agent agent)) (ok d) _ (Holds-ok Parses d h)
      (parse-Holds _)

constrain_critic-Holds :
    (review : CriticReview) (allowed : List String)
    → Holds CriticParses (constrain_critic_review review allowed)
unfolding constrain_critic_review
constrain_critic-Holds review allowed = parse_critic-Holds _

module _ (rt : Runtime) (env : Environment) (llm : Llm) (b : Bool)
    (known : is_configured rt env llm ≡ ok b) where
  -- The optional review yields one that parses, where the one without a model does.
  llm-Yields :
      (agent : EvidenceReviewer) (t : CausalTrace) (d : EvidenceReview)
      → Parses d
      → Yields Parses (review_evidence_with_optional_llm rt env llm agent t d)
  unfolding review_evidence_with_optional_llm
  llm-Yields agent t d h =
      Yields-if Parses (not (is_llm_explain_review_enabled rt env)) (ok d) _ (d, refl, h)
        (Yields-bind (λ _. Unit {0}) Parses (is_configured rt env llm) _ (b, known, tt)
          (λ configured _.
            Yields-if Parses (not configured) (ok d) _ (d, refl, h)
              (Yields-otherwise Parses _ d
                (Holds-bind_any Parses _ _ (λ review. constrain-Holds review agent _ d h)) h)))

  critic-Yields :
      (t : CausalTrace) (rs : List EvidenceReview) (d : CriticReview)
      → CriticParses d
      → Yields CriticParses (review_critic_with_optional_llm rt env llm t rs d)
  unfolding review_critic_with_optional_llm
  critic-Yields t rs d h =
      Yields-if CriticParses (not (is_llm_explain_review_enabled rt env)) (ok d) _ (d, refl, h)
        (Yields-bind (λ _. Unit {0}) CriticParses (is_configured rt env llm) _ (b, known, tt)
          (λ configured _.
            Yields-if CriticParses (not configured) (ok d) _ (d, refl, h)
              (Yields-otherwise CriticParses _ d
                (Holds-bind_any CriticParses _ _ (λ review. constrain_critic-Holds review _)) h)))

  AllParse : AgentFindings → Type 0
  AllParse r = Parses r.sensor × Parses r.rule × Parses r.execution

  parallel-Yields :
      (t : CausalTrace)
      → all is_whole t.evidence ≡ true
      → Yields AllParse (parallel_reviews rt env llm t)
  unfolding parallel_reviews review_sensor_evidence review_rule_evidence review_execution_evidence
      AllParse
  parallel-Yields t whole =
      Yields-bind Parses AllParse _ _
        (single-Yields sensor _ _ (λ item e. all-find _ t.evidence whole e))
        λ sf sh. Yields-bind Parses AllParse _ _ (llm-Yields sensor t sf sh) λ s si.
          Yields-bind Parses AllParse _ _
            (single-Yields rule _ _ (λ item e. all-find _ t.evidence whole e))
            λ rf rh. Yields-bind Parses AllParse _ _ (llm-Yields rule t rf rh) λ r ri.
              Yields-bind Parses AllParse _ _
                (parse-Yields _ (map-parses _ (all-filter is_whole is_execution t.evidence whole)))
                λ ef eh. Yields-bind Parses AllParse _ _ (llm-Yields execution t ef eh) λ x xi.
                  Yields-bind Parses AllParse _ _ (parse-Yields s si) λ s' si'.
                    Yields-bind Parses AllParse _ _ (parse-Yields r ri) λ r' ri'.
                      Yields-bind Parses AllParse _ _ (parse-Yields x xi) λ x' xi'.
                        (record { sensor = s'; rule = r'; execution = x' }, refl, (si', ri', xi'))

  verify-Yields :
      (t : CausalTrace) (rs : List EvidenceReview)
      → all is_finding (findings_of rs) ≡ true
      → Yields CriticParses (verify_evidence t rs)
  unfolding verify_evidence
  verify-Yields t rs h =
      parse_critic-Yields _ (
        rw (all-filter is_finding _ (findings_of rs) h)
          (all-filter is_finding _ (findings_of rs) h))

  critic_step-Yields :
      (t : CausalTrace) (r : AgentFindings)
      → AllParse r
      → Yields (λ _. Unit {0}) (critic_step rt env llm t r)
  unfolding critic_step AllParse all
  critic_step-Yields t r (hs, hr, hx) =
      let list = r.sensor ∷ r.rule ∷ r.execution ∷ [] in
      Yields-bind CriticParses (λ _. Unit {0}) (verify_evidence t list) _
        (verify-Yields t list (
          all-append is_finding r.sensor.findings _ hs (
            all-append is_finding r.rule.findings _ hr
              (all-append is_finding r.execution.findings [] hx refl))))
        (λ d h.
          Yields-bind CriticParses (λ _. Unit {0}) _ _ (critic-Yields t list d h)
            (λ c k. (_, refl, tt)))

  named : (s : String) → s ≢ "" → (s == "") ≡ false
  named s h = ground (arith, eq_iff s "")

  steps-Yields :
      (fetch : String → Result CausalTrace) (event_id : String) (t : CausalTrace)
      → fetch event_id ≡ ok t
      → all is_whole t.evidence ≡ true
      → Yields
          (λ _. Unit {0})
          (fetch event_id >>= λ trace.
            parallel_reviews rt env llm trace >>= critic_step rt env llm trace)
  steps-Yields fetch event_id t there whole =
      Yields-bind (λ u. all is_whole u.evidence ≡ true) (λ _. Unit {0}) (fetch event_id) _
        (t, there, whole)
        (λ u h.
          Yields-bind AllParse (λ _. Unit {0}) (parallel_reviews rt env llm u) _
            (parallel-Yields u h) (λ r k. critic_step-Yields u r k))

  -- Where the provider is a known one and its configuration can be read, an event with a non-empty
  -- id whose trace is fetched, and of whose evidence every item has an id and a detail, gets an
  -- explanation, whatever the model answers and whether its calls come through.
  pub run_explain_event_workflow-total :
      (fetch : String → Result CausalTrace) (event_id : String) (t : CausalTrace)
      → event_id ≢ ""
      → fetch event_id ≡ ok t
      → all is_whole t.evidence ≡ true
      → (r : ExplainEventWorkflowResult) × (run_explain_event_workflow rt env llm fetch event_id
          ≡ ok r)
  unfolding run_explain_event_workflow
  run_explain_event_workflow-total fetch event_id t filled there whole =
      let (r, e, _) = steps-Yields fetch event_id t there whole in
      (r, rw (named event_id filled, e) refl)
