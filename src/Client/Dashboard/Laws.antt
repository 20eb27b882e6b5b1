-- ===== src/Client/Dashboard/Laws.antt =====
-- components/dashboard/workspace-dashboard.tsx: a refresh is all or nothing, and the refreshes in the
-- background leave the primary state alone.
use semantic_layer_explore.Prelude.{
  String, Bool, true, false, not, some, ◌≡◌, refl, arith, ◌∙◌, if◌then◌else◌,
}
use semantic_layer_explore.Js.Json.{Json, property, is_text}
use semantic_layer_explore.Js.Result.{Result, ok, threw}
use semantic_layer_explore.Client.Action.{
  Request, Reply, Action, ◌>>=◌, continue, pure, lift, modify, or_handle,
}
use semantic_layer_explore.Client.Dashboard.{
  Dashboard, get, send, load_agent_results, refresh_agent_results, load_operations,
  refresh_operations, load_graph_ontology, load_graph, refresh_graph,
}

-- What a refresh in the background may not touch.
pub record SamePrimary (d t : Dashboard) : Type 0 where
  pub state : t.state ≡ d.state
  pub events : t.events ≡ d.events
  pub rules : t.rules ≡ d.rules
  pub error : t.error ≡ d.error
  pub busy : t.busy ≡ d.busy

-- A step that leaves it alone, whether it throws or not.
abbrev pub Kept : {A : Type 0} → Action Dashboard A → Type 0
Kept m = (d : Dashboard) → SamePrimary d (m d).1

pub same : (d : Dashboard) → SamePrimary d d
same d = record { state = refl; events = refl; rules = refl; error = refl; busy = refl }

pub SamePrimary-trans : {c d e : Dashboard} → SamePrimary c d → SamePrimary d e → SamePrimary c e
SamePrimary-trans h k = record {
  state = k.state ∙ h.state;
  events = k.events ∙ h.events;
  rules = k.rules ∙ h.rules;
  error = k.error ∙ h.error;
  busy = k.busy ∙ h.busy;
}

continue-Kept :
    {A B : Type 0} (r : Result A) (f : A → Action Dashboard B)
    → ((a : A) → Kept (f a))
    → Kept (continue r f)
continue-Kept (ok a) f h d = h a d
continue-Kept (threw e) f h d = same d

pub bind-Kept :
    {A B : Type 0} (m : Action Dashboard A) (f : A → Action Dashboard B)
    → Kept m
    → ((a : A) → Kept (f a))
    → Kept (m >>= f)
unfolding ◌>>=◌
bind-Kept m f h k d = SamePrimary-trans (h d) (continue-Kept (m d).0 f k (m d).1)

if-Kept :
    {A : Type 0} (b : Bool) (m n : Action Dashboard A) → Kept m → Kept n → Kept (if b then m else n)
if-Kept true m n h k = h
if-Kept false m n h k = k

handled-SamePrimary :
    (handler : String → Dashboard → Dashboard) (d : Dashboard) (out : Result (Unit {0}) × Dashboard)
    → ((e : String) (t : Dashboard) → SamePrimary t (handler e t))
    → SamePrimary d out.1
    → SamePrimary d (or_handle handler out)
handled-SamePrimary handler d (ok x, t) k h = h
handled-SamePrimary handler d (threw e, t) k h = SamePrimary-trans h (k e t)

module _ (fetch : Request → Reply) where
  send-Kept : (request : Request) → Kept (send fetch request)
  unfolding send
  send-Kept request d = ground arith

  -- A call whose body is shown where the response is `ok`.
  fetched-Kept :
      (path : String) (show : Json → Action Dashboard (Unit {0}))
      → ((body : Json) → Kept (show body))
      → Kept (
          send fetch (get path) >>= λ reply.
          if not reply.0 then pure tt else (lift reply.1 >>= show))
  fetched-Kept path show h = bind-Kept (send fetch (get path)) _ (send-Kept (get path)) λ reply.
      if-Kept (not reply.0) (pure tt) (lift reply.1 >>= show) (λ d. same d)
        (bind-Kept (lift reply.1) show (λ d. same d) h)

  agent_results-Kept : Kept (load_agent_results fetch)
  unfolding load_agent_results
  agent_results-Kept = fetched-Kept "/api/operations/agent-results?limit=6" _ λ body d. ground arith

  operations-Kept : Kept (load_operations fetch)
  unfolding load_operations
  operations-Kept = fetched-Kept "/api/operations/summary" _ λ body d. ground arith

  graph_ontology-Kept : Kept (load_graph_ontology fetch)
  unfolding load_graph_ontology
  graph_ontology-Kept = fetched-Kept "/api/graph/ontology" _ λ body d. ground arith

  graph-Kept : Kept (load_graph fetch)
  unfolding load_graph
  graph-Kept = fetched-Kept "/api/graph/projection/status" _ λ status.
      bind-Kept (modify (λ d. record d { graph_projection = some status }))
        (λ x.
          if is_text "ready" (property "status" status) then load_graph_ontology fetch else pure tt)
        (λ d. ground arith)
        λ x.
          if-Kept (is_text "ready" (property "status" status)) (load_graph_ontology fetch) (pure tt)
            graph_ontology-Kept (λ d. same d)

  -- The refreshes in the background, of the agents' results, the operations and the graph, never
  -- touch the state, the events, the rules, the error or the busy device, whatever the calls answer
  -- and however they fail: a profile that is offline shows no error.
  pub background-SamePrimary :
      (d : Dashboard)
      → SamePrimary d (refresh_agent_results fetch d)
        × SamePrimary d (refresh_operations fetch d)
        × SamePrimary d (refresh_graph fetch d)
  unfolding refresh_agent_results refresh_operations refresh_graph
  background-SamePrimary d = (
    handled-SamePrimary _ d (load_agent_results fetch d) (λ e t. ground arith)
        (agent_results-Kept d),
    handled-SamePrimary _ d (load_operations fetch d) (λ e t. same t) (operations-Kept d),
    handled-SamePrimary _ d (load_graph fetch d) (λ e t. same t) (graph-Kept d),
  )
