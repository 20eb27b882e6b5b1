-- ===== src/Explain/Stages.antt =====
-- The stages that lib/explain/workflow.ts reports with its result.
use semantic_layer_explore.Prelude.{String, List, [], ◌∷◌}

pub record Stage : Type 0 where
  pub id : String
  pub label : String
  pub status : String

abbrev completed : String → String → Stage
completed id label = record { id = id; label = label; status = "completed" }

unfoldable pub workflow_stages : List Stage
workflow_stages =
    completed "causal-trace" "Build deterministic causal trace"
    ∷ completed "sensor-review" "Review sensor evidence"
    ∷ completed "rule-review" "Review rule evidence"
    ∷ completed "execution-review" "Review execution evidence"
    ∷ completed "critic" "Review claims with optional LLM critic"
    ∷ completed "final-verifier" "Constrain critic output with deterministic verifier"
    ∷ []
