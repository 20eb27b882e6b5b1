-- ===== src/Client/Layout.antt =====
-- components/ontology/ontology-graph.tsx: where the nodes of the two graphs stand, and their edges.
-- A map whose missing keys count as 0 is a function.
pub mod Numbering
pub mod Laws
use semantic_layer_explore.Prelude.{
  ℕ, ◌+◌, ◌*◌, ◌/◌, ◌%◌, min, String, Bool, true, false, ◌||◌, Option, none, some, List, [], ◌∷◌,
  ◌==◌, eqb, ltb, map, length, if◌then◌else◌,
}
use semantic_layer_explore.Js.Runtime.{Runtime}
use semantic_layer_explore.Js.Text.{◌<>◌}
use semantic_layer_explore.Client.Policy.{
  ClassItem, PropertyItem, IndividualItem, RelationItem, Ontology,
}

pub record ProjectionNode : Type 0 where
  pub id : String
  pub kind : String
  pub name : String
  pub class_name : Option String
  pub external_id : Option String

pub record ProjectionRelation : Type 0 where
  pub id : ℕ
  pub subject_id : String
  pub predicate : String
  pub object_id : String

pub record ProjectionGraph : Type 0 where
  pub nodes : List ProjectionNode
  pub relations : List ProjectionRelation

pub record NodeData : Type 0 where
  pub label : String
  pub kind : String
  pub external_id : Option String
  pub class_name : Option String

pub record Node : Type 0 where
  pub id : String
  pub x : ℕ
  pub y : ℕ
  pub node_data : NodeData

pub record Edge : Type 0 where
  pub id : String
  pub source : String
  pub target : String
  pub label : String
  pub is_animated : Bool

-- A callback that counts the elements of each key in a map, and uses the count so far.
module _ {A B K : Type 0} (same : K → K → Bool) (key : A → K) (put : A → ℕ → B) where
  abbrev pub bump : K → (K → ℕ) → K → ℕ
  bump k counts j = if same k j then counts k + 1 else counts j

  unfoldable pub number : List A → (K → ℕ) → List B
  number [] counts = []
  number (a ∷ rest) counts = put a (counts (key a)) ∷ number rest (bump (key a) counts)

-- One step of the loop over the properties: the class at the range stands deeper than that at the
-- domain.
unfoldable pub deepen : PropertyItem → (String → ℕ) → String → ℕ
deepen p depths name =
    let next = min (depths p.domain + 1) 4 in
    if ltb (depths p.range) next then if p.range == name then next else depths name else depths name

unfoldable pub deepen_all : List PropertyItem → (String → ℕ) → String → ℕ
unfolding deepen
deepen_all [] depths = depths
deepen_all (p ∷ ps) depths = deepen_all ps (deepen p depths)

-- One pass for each class.
unfoldable pub passes : List PropertyItem → List ClassItem → (String → ℕ) → String → ℕ
unfolding deepen_all
passes ps [] depths = depths
passes ps (c ∷ cs) depths = passes ps cs (deepen_all ps depths)

unfoldable pub depths_of : Ontology → String → ℕ
unfolding passes
depths_of ontology = passes ontology.properties ontology.classes (λ _. 0)

unfoldable pub source_node : IndividualItem → ℕ → ℕ → Node
source_node item depth row = record {
  id = item.name;
  x = depth * 260;
  y = row * 105;
  node_data = record {
    label = item.name;
    kind = item.class_name;
    external_id = item.external_id;
    class_name = some item.class_name;
  };
}

unfoldable pub source_nodes : Ontology → List Node
unfolding number depths_of source_node
source_nodes ontology =
    number eqb (λ item. depths_of ontology item.class_name)
      (λ item row. source_node item (depths_of ontology item.class_name) row) ontology.individuals
      (λ _. 0)

-- A predicate whose edge is animated.
abbrev is_animated : String → Bool
is_animated predicate =
    predicate == "emits" || predicate == "evaluatedBy" || predicate == "triggers"

unfoldable pub source_edges : Runtime → Ontology → List Edge
source_edges rt ontology =
    map
      (λ r. record {
        id = rt.decimal r.id;
        source = r.subject;
        target = r.object;
        label = r.predicate;
        is_animated = is_animated r.predicate;
      })
      ontology.relations

pub record Group : Type 0 where
  pub x : ℕ
  pub columns : ℕ

unfoldable pub group_of : String → Group
group_of kind =
    if kind == "Class"
    then record { x = 0; columns = 2 }
    else if kind == "Property"
    then record { x = 390; columns = 2 }
    else if kind == "Individual"
    then record { x = 780; columns = 3 }
    else record { x = 1170; columns = 2 }

-- `index % columns` and `Math.floor(index / columns)`, where there are columns.
unfoldable pub projection_node : ProjectionNode → ℕ → Node
unfolding group_of
projection_node item index =
    let group = group_of item.kind in
    record {
      id = item.id;
      x = group.x + index % group.columns * 180;
      y = index / group.columns * 100;
      node_data = record {
        label = item.name;
        kind = item.kind;
        external_id = item.external_id;
        class_name = item.class_name;
      };
    }

unfoldable pub projection_nodes : ProjectionGraph → List Node
unfolding number projection_node
projection_nodes graph = number ◌==◌ (λ item. item.kind) projection_node graph.nodes (λ _. 0)

unfoldable pub projection_edges : Runtime → ProjectionGraph → List Edge
projection_edges rt graph =
    map
      (λ r. record {
        id = "projection-" <> rt.decimal r.id;
        source = r.subject_id;
        target = r.object_id;
        label = r.predicate;
        is_animated = is_animated r.predicate;
      })
      graph.relations
