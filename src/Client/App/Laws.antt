-- ===== src/Client/App/Laws.antt =====
-- app/client-app.tsx: each request to explain an event is a new one.
use semantic_layer_explore.Prelude.{
  ◌≤◌, ◌≡◌, ◌≢◌, refl, ap, String, Option, none, some, List, [], ◌∷◌, arith,
}
use semantic_layer_explore.Client.Policy.{Ontology}
use semantic_layer_explore.Js.Result.{Result, ok, threw}
use semantic_layer_explore.Client.App.{
  App, Event, loaded, selects, explains, goes_to, handle, handle_all, next_request, explain_event,
  load_ontology,
}

load_ontology-context :
    (answer : Option (Result Ontology)) (a : App)
    → (load_ontology answer a).explain_context ≡ a.explain_context
unfolding load_ontology
load_ontology-context none a = refl
load_ontology-context (some (threw e)) a = refl
load_ontology-context (some (ok o)) a = refl

handle-grows :
    (e : Event) (a : App)
    → next_request a.explain_context ≤ next_request (handle e a).explain_context
unfolding handle explain_event
handle-grows (loaded answer) a = rw (load_ontology-context answer a) (omega arith)
handle-grows (selects selection) a = omega arith
handle-grows (explains event_id) a = omega arith
handle-grows (goes_to tab) a = omega arith

handle_all-grows :
    (es : List Event) (a : App)
    → next_request a.explain_context ≤ next_request (handle_all es a).explain_context
unfolding handle_all
handle_all-grows [] a = omega arith
handle_all-grows (e ∷ es) a =
    let first = handle-grows e a in
    let rest = handle_all-grows es (handle e a) in omega (arith, first, rest)

-- Whatever was done before, a request to explain an event, also the one that is explained already,
-- gives the copilot a context that differs from the one it has, so that it explains the event
-- again.
pub explain_event-IsNew :
    (event_id : String) (es : List Event) (a : App)
    → (explain_event event_id (handle_all es a)).explain_context ≢ a.explain_context
unfolding explain_event
explain_event-IsNew event_id es a h =
    let grows = handle_all-grows es a in let same = ap next_request h in omega (arith, grows, same)
