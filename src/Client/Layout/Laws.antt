-- ===== src/Client/Layout/Laws.antt =====
-- components/ontology/ontology-graph.tsx: no node of a graph covers another one.
use semantic_layer_explore.Prelude.{
  ℕ, ◌*◌, ◌≤◌, ◌<◌, ◌≡◌, ◌⊎◌, ◌↔◌, sym, ◌∙◌, String, true, List, [], ◌∷◌, ◌==◌, eqb, All, arith,
  eq_iff, inl, inr,
}
use semantic_layer_explore.Client.Policy.{ClassItem, PropertyItem, Ontology}
use semantic_layer_explore.Client.Layout.{
  Node, ProjectionNode, ProjectionGraph, deepen, deepen_all, passes, depths_of, source_node,
  source_nodes, group_of, projection_node, projection_nodes,
}
use semantic_layer_explore.Client.Layout.Numbering.{Pairwise, number-Pairwise}

-- Two nodes stand at different places.
abbrev pub IsApart : Node → Node → Type 0
IsApart n m = ¬ ((n.x ≡ m.x) × (n.y ≡ m.y))

abbrev AreShallow : (String → ℕ) → Type 0
AreShallow depths = (name : String) → depths name ≤ 4

deepen-AreShallow :
    (p : PropertyItem) (depths : String → ℕ) → AreShallow depths → AreShallow (deepen p depths)
unfolding deepen
deepen-AreShallow p depths h name = ground (arith, h name)

deepen_all-AreShallow :
    (ps : List PropertyItem) (depths : String → ℕ)
    → AreShallow depths
    → AreShallow (deepen_all ps depths)
unfolding deepen_all
deepen_all-AreShallow [] depths h = h
deepen_all-AreShallow (p ∷ ps) depths h =
    deepen_all-AreShallow ps (deepen p depths) (deepen-AreShallow p depths h)

passes-AreShallow :
    (ps : List PropertyItem) (cs : List ClassItem) (depths : String → ℕ)
    → AreShallow depths
    → AreShallow (passes ps cs depths)
unfolding passes
passes-AreShallow ps [] depths h = h
passes-AreShallow ps (c ∷ cs) depths h =
    passes-AreShallow ps cs (deepen_all ps depths) (deepen_all-AreShallow ps depths h)

AllUnit : {A : Type 0} → (xs : List A) → All (λ _. Unit {0}) xs
AllUnit [] = tt
AllUnit (x ∷ xs) = (tt, AllUnit xs)

eqb_iff : (i j : ℕ) → (eqb i j ≡ true) ↔ (i ≡ j)
eqb_iff i j = (λ e. ground arith, λ e. ground arith)

-- Rows of the same depth rise, so the places differ.
places_differ : (d e i j : ℕ) → (d ≡ e → i < j) → ¬ ((d * 260 ≡ e * 260) × (i * 105 ≡ j * 105))
places_differ d e i j h (x, y) = let above = h (omega (arith, x)) in omega (arith, x, y, above)

-- No two individuals of the source's graph stand at the same place, whatever the properties and
-- however they are connected, and none stands further to the right than four columns.
pub source_nodes-IsApart :
    (ontology : Ontology)
    → Pairwise IsApart (source_nodes ontology) × ((name : String) → depths_of ontology name ≤ 4)
unfolding source_nodes source_node depths_of
source_nodes-IsApart ontology = (
  number-Pairwise eqb eqb_iff (λ item. depths_of ontology item.class_name)
      (λ item row. source_node item (depths_of ontology item.class_name) row) (λ _. Unit) IsApart
      (λ a b i j q r h.
        places_differ (depths_of ontology a.class_name) (depths_of ontology b.class_name) i j h)
      ontology.individuals (λ _. 0) (AllUnit ontology.individuals),
  passes-AreShallow ontology.properties ontology.classes (λ _. 0) (λ name. omega arith),
)

-- One of the three kinds that a node of the projection has.
abbrev pub IsKind : String → Type 0
IsKind kind = (kind ≡ "Class") ⊎ (kind ≡ "Property") ⊎ (kind ≡ "Individual")

-- In one group the numbers rise; two groups share no column.
kinds-IsApart :
    (a b : ProjectionNode) (i j : ℕ)
    → IsKind a.kind
    → IsKind b.kind
    → (a.kind ≡ b.kind → i < j)
    → IsApart (projection_node a i) (projection_node b j)
unfolding projection_node group_of
kinds-IsApart a b i j (inl e) (inl f) h (x, y) =
    let across = rw (e, f) at x in
    let down = rw (e, f) at y in let above = h (e ∙ sym f) in omega (arith, across, down, above)
kinds-IsApart a b i j (inl e) (inr (inl f)) h (x, y) =
    let across = rw (e, f) at x in omega (arith, across)
kinds-IsApart a b i j (inl e) (inr (inr f)) h (x, y) =
    let across = rw (e, f) at x in omega (arith, across)
kinds-IsApart a b i j (inr (inl e)) (inl f) h (x, y) =
    let across = rw (e, f) at x in omega (arith, across)
kinds-IsApart a b i j (inr (inl e)) (inr (inl f)) h (x, y) =
    let across = rw (e, f) at x in
    let down = rw (e, f) at y in let above = h (e ∙ sym f) in omega (arith, across, down, above)
kinds-IsApart a b i j (inr (inl e)) (inr (inr f)) h (x, y) =
    let across = rw (e, f) at x in omega (arith, across)
kinds-IsApart a b i j (inr (inr e)) (inl f) h (x, y) =
    let across = rw (e, f) at x in omega (arith, across)
kinds-IsApart a b i j (inr (inr e)) (inr (inl f)) h (x, y) =
    let across = rw (e, f) at x in omega (arith, across)
kinds-IsApart a b i j (inr (inr e)) (inr (inr f)) h (x, y) =
    let across = rw (e, f) at x in
    let down = rw (e, f) at y in let above = h (e ∙ sym f) in omega (arith, across, down, above)

-- No two nodes of the projection's graph stand at the same place, where each of them is of one of
-- the three kinds.
pub projection_nodes-IsApart :
    (graph : ProjectionGraph)
    → All (λ n. IsKind n.kind) graph.nodes
    → Pairwise IsApart (projection_nodes graph)
unfolding projection_nodes
projection_nodes-IsApart graph kinds =
    number-Pairwise ◌==◌ eq_iff (λ item. item.kind) projection_node (λ n. IsKind n.kind) IsApart
      (λ a b i j q r h. kinds-IsApart a b i j q r h) graph.nodes (λ _. 0) kinds
