-- ===== src/Client/App.antt =====
-- app/client-app.tsx: the tabs, the ontology's selection, and the event that the copilot is asked
-- to explain. The label and the meaning of a selection are those of domain/ontology.ts and
-- components/ontology/object-detail.tsx.
pub mod Laws
use semantic_layer_explore.Prelude.{ℕ, ◌+◌, String, Option, none, some, List, [], ◌∷◌}
use semantic_layer_explore.Js.Text.{◌<>◌}
use semantic_layer_explore.Js.Result.{Result, ok, threw}
use semantic_layer_explore.Client.Policy.{
  ClassItem, PropertyItem, IndividualItem, RelationItem, Ontology,
}

pub data AppTab : Type 0 where
  dashboard rules explorer ai : AppTab

-- An item with its kind.
pub data OntologySelection : Type 0 where
  class_item : ClassItem → OntologySelection
  property_item : PropertyItem → OntologySelection
  individual_item : IndividualItem → OntologySelection
  relation_item : RelationItem → OntologySelection

pub record ExplainContext : Type 0 where
  pub event_id : String
  pub requested_at : ℕ

pub record App : Type 0 where
  pub ontology : Option Ontology
  pub selection : Option OntologySelection
  pub tab : AppTab
  pub explain_context : Option ExplainContext
  pub error : String

abbrev first_of : List IndividualItem → Option OntologySelection → Option OntologySelection
first_of [] selection = selection
first_of (item ∷ items) selection = some (individual_item item)

-- The effect that reads the ontology: `none` is a response that is not `ok`.
unfoldable pub load_ontology : Option (Result Ontology) → App → App
load_ontology none a = record a { error = "The semantic layer is unavailable." }
load_ontology (some (threw e)) a = record a { error = e }
load_ontology (some (ok ontology)) a = record a {
  ontology = some ontology;
  selection = first_of ontology.individuals a.selection;
}

unfoldable pub select_ontology_item : OntologySelection → App → App
select_ontology_item selection a = record a { selection = some selection }

-- `(current?.requestedAt ?? 0) + 1`
abbrev pub next_request : Option ExplainContext → ℕ
next_request none = 1
next_request (some context) = context.requested_at + 1

unfoldable pub explain_event : String → App → App
explain_event event_id a = record a {
  explain_context =
      some (record { event_id = event_id; requested_at = next_request a.explain_context });
  tab = ai;
}

unfoldable pub change_tab : AppTab → App → App
change_tab tab a = record a { tab = tab }

unfoldable pub get_ontology_item_label : OntologySelection → String
get_ontology_item_label (class_item item) = item.name
get_ontology_item_label (property_item item) = item.name
get_ontology_item_label (individual_item item) = item.name
get_ontology_item_label (relation_item item) =
    item.subject <> (" " <> (item.predicate <> (" " <> item.object)))

unfoldable pub get_semantic_meaning : OntologySelection → String
get_semantic_meaning (relation_item item) =
    item.subject
    <> (" " <> (item.predicate <> (" " <> (item.object <> " is an asserted semantic relation."))))
get_semantic_meaning (property_item item) =
    item.name <> (" connects " <> (item.domain <> (" to " <> (item.range <> "."))))
get_semantic_meaning (individual_item item) =
    item.name <> (" is a concrete instance of " <> (item.class_name <> "."))
get_semantic_meaning (class_item item) = item.name <> " defines a reusable business concept."

-- What a person does, and the answer for the ontology.
pub data Event : Type 0 where
  loaded : Option (Result Ontology) → Event
  selects : OntologySelection → Event
  explains : String → Event
  goes_to : AppTab → Event

unfoldable pub handle : Event → App → App
unfolding load_ontology select_ontology_item explain_event change_tab
handle (loaded answer) a = load_ontology answer a
handle (selects selection) a = select_ontology_item selection a
handle (explains event_id) a = explain_event event_id a
handle (goes_to tab) a = change_tab tab a

unfoldable pub handle_all : List Event → App → App
unfolding handle
handle_all [] a = a
handle_all (e ∷ es) a = handle_all es (handle e a)
