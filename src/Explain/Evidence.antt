-- ===== src/Explain/Evidence.antt =====
-- Lists of evidence and of the findings that cite it.
use semantic_layer_explore.Prelude.{
  String, ◌≡◌, inl, inr, ap, sym, ◌<◌, Bool, true, false, some, List, [], ◌∷◌, ◌==◌, eq_iff, arith,
  all, any, filter, find, length, if◌then◌else◌, Bool-cases, All, Member, filter-Member,
  All-of_members,
}
use semantic_layer_explore.Prelude.{first, later}
use mathlib.Core.Path.{subst}
use semantic_layer_explore.Js.Result.{ok, Holds, Holds-if, Holds-ok, Holds-threw}
use semantic_layer_explore.Explain.Trace.{
  EvidenceReviewer, TraceEvidence, CausalTrace, EvidenceFinding, EvidenceReview, CriticReview,
  is_finding, parse_evidence_review, parse_critic_review, has, ids_of,
}

-- The finding cites something, and only ids of the evidence of the trace.
abbrev pub IsGrounded : CausalTrace → EvidenceFinding → Type 0
IsGrounded trace f =
    (0 < length f.evidence_ids) × All (λ id. Member id (ids_of trace.evidence)) f.evidence_ids

abbrev pub IsReviewOf : CausalTrace → EvidenceReviewer → EvidenceReview → Type 0
IsReviewOf trace agent r = (r.agent ≡ agent) × All (IsGrounded trace) r.findings

pub has-Member : (ids : List String) (id : String) → has ids id ≡ true → Member id ids
unfolding any
has-Member [] id h = cc h
has-Member (k ∷ ids) id h = elim (Bool-cases (k == id)) [
  | inl e ↦ first (ground (arith, eq_iff k id))
  | inr e ↦ later (has-Member ids id (ground arith))
]

pub ids_of-Member :
    (items : List TraceEvidence) {item : TraceEvidence}
    → Member item items
    → Member item.id (ids_of items)
ids_of-Member [] h = elim h [ ]
ids_of-Member (x ∷ items) (first e) = first (ap (λ (i : TraceEvidence). i.id) e)
ids_of-Member (x ∷ items) (later h) = later (ids_of-Member items h)

pub kept_ids :
    (b : Bool) (x : TraceEvidence) (items rest : List TraceEvidence) {id : String}
    → (Member id (ids_of rest) → Member id (ids_of items))
    → Member id (ids_of (if b then x ∷ rest else rest))
    → Member id (ids_of (x ∷ items))
kept_ids true x items rest k (first e) = first e
kept_ids true x items rest k (later m) = later (k m)
kept_ids false x items rest k m = later (k m)

pub filter_ids :
    (p : TraceEvidence → Bool) (items : List TraceEvidence) {id : String}
    → Member id (ids_of (filter p items))
    → Member id (ids_of items)
unfolding filter
filter_ids p [] h = h
filter_ids p (x ∷ items) h = kept_ids (p x) x items (filter p items) (λ m. filter_ids p items m) h

pub filter-All :
    {A : Type 0} (P : A → Type 0) (p : A → Bool) (xs : List A)
    → ((x : A) → p x ≡ true → P x)
    → All P (filter p xs)
filter-All P p xs k = All-of_members P (filter p xs) (λ x m. k x (filter-Member p xs m).1)

pub all-has :
    (allowed ids : List String) → all (has allowed) ids ≡ true → All (λ id. Member id allowed) ids
unfolding all
all-has allowed [] h = tt
all-has allowed (id ∷ ids) h =
    (has-Member allowed id (ground arith), all-has allowed ids (ground arith))

pub find-Member :
    (p : TraceEvidence → Bool) (items : List TraceEvidence) {item : TraceEvidence}
    → find p items ≡ some item
    → Member item items
unfolding find
find-Member p [] h = cc h
find-Member p (x ∷ items) h = elim (Bool-cases (p x)) [
  | inl e ↦ first (ground arith)
  | inr e ↦ later (find-Member p items (ground arith))
]

pub All-of :
    {A : Type 0} {P Q : A → Type 0} (xs : List A) → ((x : A) → P x → Q x) → All P xs → All Q xs
All-of [] k h = tt
All-of (x ∷ xs) k (p, h) = (k x p, All-of xs k h)

pub All-at : {A : Type 0} (P : A → Type 0) {x : A} (xs : List A) → Member x xs → All P xs → P x
All-at P [] m h = elim m [ ]
All-at P (y ∷ xs) (first e) (p, h) = subst P (sym e) p
All-at P (y ∷ xs) (later m) (p, h) = All-at P xs m h

pub parse-Holds :
    (P : EvidenceReview → Type 0) (r : EvidenceReview) → P r → Holds P (parse_evidence_review r)
unfolding parse_evidence_review
parse-Holds P r h =
    Holds-if P (all is_finding r.findings) (ok r) _ (Holds-ok P r h) (Holds-threw P _)

pub parse_critic-Holds :
    (P : CriticReview → Type 0) (r : CriticReview) → P r → Holds P (parse_critic_review r)
unfolding parse_critic_review
parse_critic-Holds P r h = Holds-if P _ (ok r) _ (Holds-ok P r h) (Holds-threw P _)
