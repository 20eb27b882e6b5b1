-- ===== src/Client/Policy/Laws.antt =====
-- lib/client/semantic-policy.ts: who is let through.
use semantic_layer_explore.Prelude.{
  String, Bool, true, Option, none, some, List, [], ◌∷◌, ◌≡◌, ◌↔◌, ◌==◌, refl, arith, any, Member,
  first, later, Bool-cases, inl, inr, eq_iff, ap,
}
use semantic_layer_explore.Js.Runtime.{Runtime}
use semantic_layer_explore.Js.Result.{Result, ok, threw, ◌>>=◌}
use semantic_layer_explore.Client.Policy.{
  Ontology, IndividualItem, RelationItem, SemanticAction, SemanticPolicy, SemanticPolicyCheck,
  semantic_policies, matches_relation, check_policy, load_ontology_policy_check, confirmed,
  confirm_semantic_policy,
}

-- Some item of a list passes a test.
abbrev Passes {ℓ} : {A : Type ℓ} → (A → Bool) → List A → Type ℓ
Passes {A = A} p xs = (x : A) × Member x xs × (p x ≡ true)

any-Passes {ℓ} : {A : Type ℓ} (p : A → Bool) (xs : List A) → any p xs ≡ true → Passes p xs
unfolding any
any-Passes p [] h = cc h
any-Passes p (x ∷ xs) h = elim (Bool-cases (p x)) [
  | inl here ↦ (x, first refl, here)
  | inr miss ↦ let (y, m, e) = any-Passes p xs (ground arith) in (y, later m, e)
]

Passes-any {ℓ} :
    {A : Type ℓ} (p : A → Bool) {x : A} (xs : List A) → Member x xs → p x ≡ true → any p xs ≡ true
unfolding any
Passes-any p [] m h = elim m [ ]
Passes-any p (y ∷ xs) (first e) h = ground (arith, ap p e)
Passes-any p (y ∷ xs) (later m) h = ground (arith, Passes-any p xs m h)

-- The ontology names the individual, and states the relation.
pub record Confirms (policy : SemanticPolicy) (o : Ontology) : Type 0 where
  pub individual : IndividualItem
  pub individual_Member : Member individual o.individuals
  pub named : individual.name ≡ policy.required_individual
  pub relation : RelationItem
  pub relation_Member : Member relation o.relations
  pub subject : relation.subject ≡ policy.required_relation.subject
  pub predicate : relation.predicate ≡ policy.required_relation.predicate
  pub object : relation.object ≡ policy.required_relation.object

abbrev pub LetsThrough : Result (Option SemanticPolicyCheck) → Type 0
LetsThrough r = (check : SemanticPolicyCheck) × (r ≡ ok (some check))

Passes-Confirms :
    (policy : SemanticPolicy) (o : Ontology)
    → Passes (λ item. item.name == policy.required_individual) o.individuals
    → Passes (matches_relation policy.required_relation) o.relations
    → Confirms policy o
unfolding matches_relation
Passes-Confirms policy o (i, i_in, named) (r, r_in, h) = record {
  individual = i;
  individual_Member = i_in;
  named = (eq_iff i.name policy.required_individual).0 named;
  relation = r;
  relation_Member = r_in;
  subject = (eq_iff r.subject policy.required_relation.subject).0 (ground arith);
  predicate = (eq_iff r.predicate policy.required_relation.predicate).0 (ground arith);
  object = (eq_iff r.object policy.required_relation.object).0 (ground arith);
}

relation-matches :
    (policy : SemanticPolicy) (o : Ontology) (c : Confirms policy o)
    → matches_relation policy.required_relation c.relation ≡ true
unfolding matches_relation
relation-matches policy o c = ground (
  arith,
  (eq_iff c.relation.subject policy.required_relation.subject).1 c.subject,
  (eq_iff c.relation.predicate policy.required_relation.predicate).1 c.predicate,
  (eq_iff c.relation.object policy.required_relation.object).1 c.object,
)

confirmed-LetsThrough :
    (confirm : String → Bool) (check : SemanticPolicyCheck)
    → LetsThrough (confirmed confirm check)
    → (check.individual_found ≡ true)
      × (check.relation_found ≡ true)
      × (confirm check.policy.prompt ≡ true)
unfolding confirmed
confirmed-LetsThrough confirm check (c, h) = elim (Bool-cases check.individual_found) [
  | inr e ↦ ground arith
  | inl e ↦ elim (Bool-cases check.relation_found) [
    | inr f ↦ ground arith
    | inl f ↦ elim (Bool-cases (confirm check.policy.prompt)) [
      | inr g ↦ ground arith
      | inl g ↦ (e, f, g)
    ]
  ]
]

found-LetsThrough :
    (confirm : String → Bool) (check : SemanticPolicyCheck)
    → check.individual_found ≡ true
    → check.relation_found ≡ true
    → confirm check.policy.prompt ≡ true
    → LetsThrough (confirmed confirm check)
unfolding confirmed
found-LetsThrough confirm check e f g = (check, ground arith)

-- A person is let through exactly where the ontology was read, names the individual and states the
-- relation that the action's policy requires, and the person answers its prompt with yes.
pub confirm_semantic_policy-Confirms_iff :
    (rt : Runtime) (confirm : String → Bool) (o : Ontology) (action : SemanticAction)
    → (LetsThrough (confirm_semantic_policy rt confirm (some (ok o)) action) ↔ (
        Confirms (semantic_policies action) o × (confirm (semantic_policies action).prompt ≡ true)))
      × ((e : String) → ¬ LetsThrough (confirm_semantic_policy rt confirm (some (threw e)) action))
      × ¬ LetsThrough (confirm_semantic_policy rt confirm none action)
unfolding confirm_semantic_policy load_ontology_policy_check ◌>>=◌ check_policy
confirm_semantic_policy-Confirms_iff rt confirm o action = (
  (
    (λ h.
        let (i, r, answer) =
          confirmed-LetsThrough confirm (check_policy rt (semantic_policies action) o) h in
        (
          Passes-Confirms (semantic_policies action) o (any-Passes _ o.individuals i)
              (any-Passes _ o.relations r),
          answer,
        )),
    (λ (c, answer).
        found-LetsThrough confirm (check_policy rt (semantic_policies action) o)
          (Passes-any _ o.individuals c.individual_Member
            ((eq_iff c.individual.name (semantic_policies action).required_individual).1 c.named))
          (Passes-any _ o.relations c.relation_Member
            (relation-matches (semantic_policies action) o c))
          answer),
  ),
  (λ e (c, h). cc h),
  λ (c, h). cc h,
)
