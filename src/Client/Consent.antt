-- ===== src/Client/Consent.antt =====
-- `confirmSemanticAction` of components/rules/rule-studio.tsx and `confirmInspectionTeamQuery` of
-- components/ai/ask-ai.tsx: the person confirms the role that an action needs.
pub mod Laws
use semantic_layer_explore.Prelude.{
  String, Bool, true, false, ◌||◌, not, Option, List, [], ◌∷◌, ◌++◌, if◌then◌else◌,
}
use semantic_layer_explore.Js.Text.{◌<>◌, join}
use semantic_layer_explore.Js.Runtime.{Runtime}
use semantic_layer_explore.Js.Result.{Result, ok, threw}
use semantic_layer_explore.Client.Policy.{
  Ontology, SemanticAction, SemanticPolicyCheck, load_ontology_policy_check,
}

abbrev answer_text : Bool → SemanticPolicyCheck → String
answer_text confirmed check =
    if confirmed
    then "User confirmed " <> (check.policy.required_individual <> ".")
    else "User cancelled " <> (check.policy.required_individual <> " confirmation.")

-- The outcome, and the semantic trace that is shown.
abbrev pub asked : (String → Bool) → Result SemanticPolicyCheck → Result Bool × List String
asked confirm (threw e) = (threw e, "Starting semantic role policy check…" ∷ [])
asked confirm (ok check) =
    let shown = check.policy.title ∷ check.steps in
    if not check.individual_found || not check.relation_found
    then (threw ("Semantic role policy failed: " <> join " / " check.steps), shown)
    else (
      ok (confirm check.policy.prompt),
      shown ++ answer_text (confirm check.policy.prompt) check ∷ [],
    )

unfoldable pub confirm_semantic_action :
    Runtime
    → (String → Bool)
    → Option (Result Ontology)
    → SemanticAction
    → Result Bool × List String
unfolding join load_ontology_policy_check
confirm_semantic_action rt confirm response action =
    asked confirm (load_ontology_policy_check rt response action)
