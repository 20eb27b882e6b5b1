-- ===== src/Client/Copilot/Graph.antt =====
-- `WorkflowGraph` of components/ai/ask-ai.tsx: the nodes and edges that are drawn for an explanation.
use semantic_layer_explore.Prelude.{
  ℕ, ◌<◌, ◌≡◌, refl, String, Bool, true, false, Option, none, some, List, [], ◌∷◌, ◌==◌, any, All,
  arith, if◌then◌else◌,
}
use semantic_layer_explore.Explain.Stages.{Stage, workflow_stages}

pub record FlowNode : Type 0 where
  pub id : String
  pub label : String
  pub kind : String
  pub x : ℕ
  pub y : ℕ
  pub done : Bool

pub record FlowEdge : Type 0 where
  pub id : String
  pub source : String
  pub target : String
  pub animated : Bool

-- `completed.has(id)` for the set of the ids of the stages, which is empty where the result has no
-- workflow
unfoldable pub has_stage : Option (List Stage) → String → Bool
unfolding any
has_stage none id = false
has_stage (some stages) id = any (λ stage. stage.id == id) stages

module _ (stages : Option (List Stage)) where
  unfoldable pub make_node : String → String → String → ℕ → ℕ → FlowNode
  unfolding has_stage
  make_node id label kind x y = record {
    id = id;
    label = label;
    kind = kind;
    x = x;
    y = y;
    done = has_stage stages id;
  }

  unfoldable pub flow_nodes : List FlowNode
  unfolding make_node
  flow_nodes =
      make_node "causal-trace" "Causal Trace" "deterministic" 0 90
      ∷ make_node "sensor-review" "Sensor Review" "optional LLM" 250 0
      ∷ make_node "rule-review" "Rule Review" "optional LLM" 250 90
      ∷ make_node "execution-review" "Execution Review" "optional LLM" 250 180
      ∷ make_node "critic" "Critic" "optional LLM" 520 90
      ∷ make_node "final-verifier" "Final Verifier" "deterministic" 760 90
      ∷ []

abbrev plain_edge : String → String → String → FlowEdge
plain_edge id source target = record { id = id; source = source; target = target; animated = false }

abbrev animated_edge : String → String → String → FlowEdge
animated_edge id source target = record {
  id = id;
  source = source;
  target = target;
  animated = true;
}

unfoldable pub flow_edges : List FlowEdge
flow_edges =
    animated_edge "trace-sensor" "causal-trace" "sensor-review"
    ∷ animated_edge "trace-rule" "causal-trace" "rule-review"
    ∷ animated_edge "trace-execution" "causal-trace" "execution-review"
    ∷ plain_edge "sensor-critic" "sensor-review" "critic"
    ∷ plain_edge "rule-critic" "rule-review" "critic"
    ∷ plain_edge "execution-critic" "execution-review" "critic"
    ∷ plain_edge "critic-final" "critic" "final-verifier"
    ∷ []

-- The place of a node, from the left.
abbrev pub x_of : List FlowNode → String → Option ℕ
x_of [] id = none
x_of (n ∷ ns) id = if n.id == id then some n.x else x_of ns id

-- The edge leads from a node that is drawn to one further right.
abbrev pub LeadsRight : List FlowNode → FlowEdge → Type 0
LeadsRight nodes e =
    (a : ℕ) × (b : ℕ) × (x_of nodes e.source ≡ some a) × (x_of nodes e.target ≡ some b) × (a < b)

-- Whatever stages a result reports, every edge joins two drawn nodes from left to right, so the
-- graph has no cycle, and a node is done exactly if its stage is reported. With the stages of the
-- workflow all are done.
pub flow_edges-LeadsRight :
    (stages : Option (List Stage))
    → All (LeadsRight (flow_nodes stages)) flow_edges
      × All (λ n. n.done ≡ has_stage stages n.id) (flow_nodes stages)
      × All (λ n. n.done ≡ true) (flow_nodes (some workflow_stages))
unfolding flow_nodes flow_edges workflow_stages has_stage any
flow_edges-LeadsRight stages = (
  (
    (0, 250, refl, refl, omega arith),
    (
      (0, 250, refl, refl, omega arith),
      (
        (0, 250, refl, refl, omega arith),
        (
          (250, 520, refl, refl, omega arith),
          (
            (250, 520, refl, refl, omega arith),
            ((250, 520, refl, refl, omega arith), ((520, 760, refl, refl, omega arith), tt)),
          ),
        ),
      ),
    ),
  ),
  (refl, (refl, (refl, (refl, (refl, (refl, tt)))))),
  (refl, (refl, (refl, (refl, (refl, (refl, tt)))))),
)
