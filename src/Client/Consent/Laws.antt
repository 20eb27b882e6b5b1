-- ===== src/Client/Consent/Laws.antt =====
-- A confirmed action has the ontology behind it.
use semantic_layer_explore.Prelude.{String, Bool, true, Option, none, some, [], ◌≡◌, refl, arith}
use semantic_layer_explore.Js.Runtime.{Runtime}
use semantic_layer_explore.Js.Result.{Result, ok, threw, ◌>>=◌}
use semantic_layer_explore.Client.Policy.{
  Ontology, SemanticAction, SemanticPolicyCheck, semantic_policies, confirmed,
  load_ontology_policy_check, confirm_semantic_policy,
}
use semantic_layer_explore.Client.Policy.Laws.{
  Confirms, LetsThrough, confirm_semantic_policy-Confirms_iff,
}
use semantic_layer_explore.Client.Consent.{asked, confirm_semantic_action}

-- The ontology was read and confirms the role of the action, and the person has said yes.
abbrev pub Consented : (String → Bool) → Option (Result Ontology) → SemanticAction → Type 0
Consented confirm response action =
    (o : Ontology) × (response ≡ some (ok o))
    × Confirms (semantic_policies action) o
    × (confirm (semantic_policies action).prompt ≡ true)

abbrev empty : Ontology
empty = record { classes = []; properties = []; individuals = []; relations = [] }

asked-LetsThrough :
    (confirm : String → Bool) (check : SemanticPolicyCheck)
    → (asked confirm (ok check)).0 ≡ ok true
    → LetsThrough (confirmed confirm check)
unfolding confirmed
asked-LetsThrough confirm check h = (check, ground arith)

loaded-Consented :
    (rt : Runtime) (confirm : String → Bool) (response : Option (Result Ontology))
    (action : SemanticAction)
    → LetsThrough (confirm_semantic_policy rt confirm response action)
    → Consented confirm response action
loaded-Consented rt confirm none action h =
    absurd ((confirm_semantic_policy-Confirms_iff rt confirm empty action).2 h)
loaded-Consented rt confirm (some (threw e)) action h =
    absurd ((confirm_semantic_policy-Confirms_iff rt confirm empty action).1 e h)
loaded-Consented rt confirm (some (ok o)) action h =
    let (c, yes_said) = (confirm_semantic_policy-Confirms_iff rt confirm o action).0.0 h in
    (o, refl, c, yes_said)

answered-LetsThrough :
    (rt : Runtime) (confirm : String → Bool) (r : Result SemanticPolicyCheck)
    → (asked confirm r).0 ≡ ok true
    → LetsThrough (r >>= confirmed confirm)
unfolding ◌>>=◌
answered-LetsThrough rt confirm (threw e) h = cc h
answered-LetsThrough rt confirm (ok check) h = asked-LetsThrough confirm check h

pub confirm_semantic_action-Consented :
    (rt : Runtime) (confirm : String → Bool) (response : Option (Result Ontology))
    (action : SemanticAction)
    → (confirm_semantic_action rt confirm response action).0 ≡ ok true
    → Consented confirm response action
unfolding confirm_semantic_action confirm_semantic_policy
confirm_semantic_action-Consented rt confirm response action h =
    loaded-Consented rt confirm response action
      (answered-LetsThrough rt confirm (load_ontology_policy_check rt response action) h)
