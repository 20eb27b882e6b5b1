-- ===== src/Client/Policy.antt =====
-- lib/client/semantic-policy.ts, and the ontology of domain/ontology.ts: a person acts in a role
-- that the ontology confirms.
pub mod Laws
use semantic_layer_explore.Prelude.{
  ℕ, zero, suc, ◌+◌, String, Bool, true, false, ◌&&◌, ◌||◌, not, Option, none, some, List, [], ◌∷◌,
  ◌==◌, any, if◌then◌else◌,
}
use semantic_layer_explore.Js.Text.{◌<>◌, join}
use semantic_layer_explore.Js.Runtime.{Runtime}
use semantic_layer_explore.Js.Result.{Result, ok, threw, ◌>>=◌}

pub record ClassItem : Type 0 where
  pub id : ℕ
  pub name : String
  pub description : String

pub record PropertyItem : Type 0 where
  pub id : ℕ
  pub name : String
  pub description : String
  pub domain : String
  pub range : String

pub record IndividualItem : Type 0 where
  pub id : ℕ
  pub name : String
  pub description : String
  pub class_name : String
  pub external_id : Option String

pub record RelationItem : Type 0 where
  pub id : ℕ
  pub subject : String
  pub predicate : String
  pub object : String

pub record Ontology : Type 0 where
  pub classes : List ClassItem
  pub properties : List PropertyItem
  pub individuals : List IndividualItem
  pub relations : List RelationItem

pub data SemanticAction : Type 0 where
  rule_approve : SemanticAction
  rule_toggle : SemanticAction
  rule_delete : SemanticAction
  copilot_query : SemanticAction

pub record RequiredRelation : Type 0 where
  pub subject : String
  pub predicate : String
  pub object : String

pub record SemanticPolicy : Type 0 where
  pub action : SemanticAction
  pub title : String
  pub required_individual : String
  pub required_relation : RequiredRelation
  pub prompt : String

pub record SemanticPolicyCheck : Type 0 where
  pub policy : SemanticPolicy
  pub individual_found : Bool
  pub relation_found : Bool
  pub steps : List String

-- The three policies on rules, which differ in the action and its title.
abbrev engineer_policy : SemanticAction → String → SemanticPolicy
engineer_policy action title = record {
  action = action;
  title = title;
  required_individual = "OpsEngineer";
  required_relation = record {
    subject = "OpsEngineer";
    predicate = "assignedTo";
    object = "BestAiCom Smart Workspace";
  };
  prompt =
      "Ontology confirms OpsEngineer is assigned to BestAiCom Smart Workspace. Continue as OpsEngineer?";
}

unfoldable pub semantic_policies : SemanticAction → SemanticPolicy
semantic_policies rule_approve = engineer_policy rule_approve "Automation approval"
semantic_policies rule_toggle = engineer_policy rule_toggle "Automation state change"
semantic_policies rule_delete = engineer_policy rule_delete "Automation removal"
semantic_policies copilot_query = record {
  action = copilot_query;
  title = "Operational context query";
  required_individual = "InspectionTeam";
  required_relation = record {
    subject = "InspectionTeam";
    predicate = "worksFor";
    object = "BestAiCom";
  };
  prompt = "Ontology confirms InspectionTeam works for BestAiCom. Continue as InspectionTeam?";
}

unfoldable pub matches_relation : RequiredRelation → RelationItem → Bool
matches_relation wanted item =
    item.subject == wanted.subject
    && (item.predicate == wanted.predicate && item.object == wanted.object)

abbrev count {ℓ} : {A : Type ℓ} → List A → ℕ
count [] = 0
count (x ∷ xs) = suc (count xs)

abbrev found_word : Bool → String
found_word found = if found then "Found" else "Missing"

unfoldable pub steps_of : Runtime → Ontology → SemanticPolicy → Bool → Bool → List String
steps_of rt ontology policy individual relation =
    ("Loaded ontology: "
      <> (rt.decimal (count ontology.individuals)
          <> (" individuals, " <> (rt.decimal (count ontology.relations) <> " relations"))))
    ∷ (found_word individual <> (" required individual: " <> policy.required_individual))
    ∷ (found_word relation
        <> (" required relation: "
            <> (policy.required_relation.subject
                <> (" "
                    <> (policy.required_relation.predicate
                        <> (" " <> policy.required_relation.object))))))
    ∷ []

unfoldable pub check_policy : Runtime → SemanticPolicy → Ontology → SemanticPolicyCheck
unfolding steps_of any matches_relation
check_policy rt policy ontology =
    let individual = any (λ item. item.name == policy.required_individual) ontology.individuals in
    let relation = any (matches_relation policy.required_relation) ontology.relations in
    record {
      policy = policy;
      individual_found = individual;
      relation_found = relation;
      steps = steps_of rt ontology policy individual relation;
    }

-- The argument is the response of `/api/ontology`: `none` where it is not `ok`, otherwise what
-- reading its JSON gives.
unfoldable pub load_ontology_policy_check :
    Runtime → Option (Result Ontology) → SemanticAction → Result SemanticPolicyCheck
unfolding ◌>>=◌ check_policy semantic_policies
load_ontology_policy_check rt none action =
    threw "Semantic role policy could not read the ontology."
load_ontology_policy_check rt (some json) action = do
  ontology ← json
  ok (check_policy rt (semantic_policies action) ontology)

-- `confirm` is the answer of the person to a prompt.
unfoldable pub confirmed :
    (String → Bool) → SemanticPolicyCheck → Result (Option SemanticPolicyCheck)
unfolding join
confirmed confirm check =
    if not check.individual_found || not check.relation_found
    then threw ("Semantic role policy failed: " <> join " / " check.steps)
    else ok (if confirm check.policy.prompt then some check else none)

unfoldable pub confirm_semantic_policy :
    Runtime
    → (String → Bool)
    → Option (Result Ontology)
    → SemanticAction
    → Result (Option SemanticPolicyCheck)
unfolding ◌>>=◌ load_ontology_policy_check confirmed
confirm_semantic_policy rt confirm response action = do
  check ← load_ontology_policy_check rt response action
  confirmed confirm check
