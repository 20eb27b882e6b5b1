-- ===== src/Explain/Trace.antt =====
-- lib/explain/causal-trace.ts, and the findings of lib/ai/llm/explain-review.ts
use semantic_layer_explore.Prelude.{
  String, Bool, true, false, ◌&&◌, not, Option, List, ◌==◌, all, any, map, if◌then◌else◌,
}
use semantic_layer_explore.Js.Json.{Fields}
use semantic_layer_explore.Js.Result.{Result, ok, threw}

pub data EvidenceSupport : Type 0 where
  proven : EvidenceSupport
  derived : EvidenceSupport
  insufficient : EvidenceSupport

pub data TraceCompleteness : Type 0 where
  complete : TraceCompleteness
  partial : TraceCompleteness
  insufficient : TraceCompleteness

pub data EvidenceReviewer : Type 0 where
  sensor : EvidenceReviewer
  rule : EvidenceReviewer
  execution : EvidenceReviewer

abbrev pub same_reviewer : EvidenceReviewer → EvidenceReviewer → Bool
same_reviewer sensor sensor = true
same_reviewer rule rule = true
same_reviewer execution execution = true
same_reviewer _ _ = false

pub record TraceEvidence : Type 0 where
  pub id : String
  pub label : String
  pub support : EvidenceSupport
  pub event_id : Option String
  pub event_type : Option String
  pub detail : String

pub record CausalStep : Type 0 where
  pub type : EvidenceReviewer
  pub label : String
  pub detail : String
  pub evidence_id : Option String
  pub support : EvidenceSupport

-- `details` holds the events, the reading, the rule and the state, which the workflow passes on.
pub record CausalTrace : Type 0 where
  pub event_id : String
  pub explainable : Bool
  pub completeness : TraceCompleteness
  pub title : String
  pub summary : String
  pub details : Fields
  pub missing : List String
  pub evidence : List TraceEvidence
  pub causal_steps : List CausalStep

pub record EvidenceFinding : Type 0 where
  pub claim : String
  pub evidence_ids : List String
  pub support : EvidenceSupport

pub record EvidenceReview : Type 0 where
  pub agent : EvidenceReviewer
  pub findings : List EvidenceFinding
  pub uncertainties : List String

pub record CriticReview : Type 0 where
  pub verified_claims : List EvidenceFinding
  pub rejected_claims : List EvidenceFinding
  pub uncertainties : List String

-- `z.string().min(1)`
abbrev pub is_filled : String → Bool
is_filled s = not (s == "")

unfoldable pub is_finding : EvidenceFinding → Bool
unfolding all
is_finding f = is_filled f.claim && all is_filled f.evidence_ids

-- `evidenceReviewSchema.parse`, `criticReviewSchema.parse` of values of these types
unfoldable pub parse_evidence_review : EvidenceReview → Result EvidenceReview
unfolding is_finding
parse_evidence_review r = if all is_finding r.findings then ok r else threw "Invalid input"

unfoldable pub parse_critic_review : CriticReview → Result CriticReview
unfolding is_finding
parse_critic_review r =
    if all is_finding r.verified_claims && all is_finding r.rejected_claims
    then ok r
    else threw "Invalid input"

unfoldable pub finding : String → List String → EvidenceSupport → EvidenceFinding
finding claim evidence_ids support = record {
  claim = claim;
  evidence_ids = evidence_ids;
  support = support;
}

-- `set.has(id)`, where the set is made from a list
abbrev pub has : List String → String → Bool
has ids id = any (λ k. k == id) ids

abbrev pub ids_of : List TraceEvidence → List String
ids_of evidence = map (λ item. item.id) evidence
