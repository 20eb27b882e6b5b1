-- ===== src/Client/Dashboard.antt =====
-- The requests of components/dashboard/workspace-dashboard.tsx. The replies to calls that are made
-- at once are taken to settle in the order of the calls; the markup and the timers are left out.
pub mod Laws
pub mod Refresh
pub mod Toggle
use semantic_layer_explore.Prelude.{
  ℕ, suc, ◌+◌, String, Bool, true, false, ◌&&◌, ◌||◌, not, Option, none, some, List, [], ◌∷◌, ◌++◌,
  ◌==◌, if◌then◌else◌,
}
use semantic_layer_explore.Js.Json.{
  Json, nil, null, string, object, array, field, end, property, is_text,
}
use semantic_layer_explore.Js.Text.{◌<>◌}
use semantic_layer_explore.Js.Result.{Result, ok, threw}
use semantic_layer_explore.Client.Timeline.{WorkspaceEvent}
use semantic_layer_explore.Client.Action.{
  Request, Reply, Action, ◌>>=◌, ◌>>◌, pure, throw, lift, modify, or_handle, opened,
}

pub record Dashboard : Type 0 where
  pub state : Option Json
  pub events : List WorkspaceEvent
  pub rules : Json
  pub operations : Option Json
  pub agent_results : Json
  pub graph_projection : Option Json
  pub graph_ontology : Option Json
  pub graph_busy : Bool
  pub error : String
  -- the id of the device that is busy
  pub busy : Option String
  pub sent : List Request

pub record DeviceButton : Type 0 where
  pub id : String
  pub type : String
  pub status : String

abbrev get : String → Request
get path = record { method = "GET"; path = path; body = none }

abbrev array_or_empty : Option Json → Json
array_or_empty none = array nil
array_or_empty (some null) = array nil
array_or_empty (some value) = value

-- The `catch` of the handlers that show the error.
abbrev pub shown : Result (Unit {0}) × Dashboard → Dashboard
shown out = or_handle (λ e d. record d { error = e }) out

-- The empty `catch`.
abbrev pub ignored : Result (Unit {0}) × Dashboard → Dashboard
ignored out = or_handle (λ e d. d) out

-- `fetch` is the API of the workspace, `read_events` takes the events out of the JSON that it
-- answers.
unfoldable pub toggle_command : DeviceButton → String
toggle_command device =
    if device.type == "buzzer" then "beep" else if device.status == "on" then "off" else "on"

unfoldable pub show_operations : Bool × Result Json → Action Dashboard (Unit {0})
unfolding ◌>>=◌
show_operations reply =
    if not reply.0
    then pure tt
    else do body ← lift reply.1; modify (λ d. record d { operations = some body })

module _ (fetch : Request → Reply) where
  unfoldable pub send : Request → Action Dashboard (Bool × Result Json)
  send request d = (opened (fetch request), record d { sent = d.sent ++ request ∷ [] })

  -- A call whose promise is awaited later.
  unfoldable pub issue : Request → Action Dashboard (Result (Bool × Result Json))
  issue request d = (ok (opened (fetch request)), record d { sent = d.sent ++ request ∷ [] })

  unfoldable pub load_agent_results : Action Dashboard (Unit {0})
  unfolding ◌>>=◌ send property
  load_agent_results = do
    reply ← send (get "/api/operations/agent-results?limit=6")
    if not reply.0 then pure tt else do
      body ← lift reply.1
      modify (λ d. record d { agent_results = array_or_empty (property "results" body) })

  unfoldable pub refresh_agent_results : Dashboard → Dashboard
  unfolding load_agent_results
  refresh_agent_results d =
      or_handle (λ e t. record t { agent_results = array nil }) (load_agent_results d)

  unfoldable pub load_operations : Action Dashboard (Unit {0})
  unfolding ◌>>=◌ send
  load_operations = do
    reply ← send (get "/api/operations/summary")
    if not reply.0
        then pure tt
        else do body ← lift reply.1; modify (λ d. record d { operations = some body })

  unfoldable pub refresh_operations : Dashboard → Dashboard
  unfolding load_operations
  refresh_operations d = ignored (load_operations d)

  unfoldable pub load_graph_ontology : Action Dashboard (Unit {0})
  unfolding ◌>>=◌ send
  load_graph_ontology = do
    reply ← send (get "/api/graph/ontology")
    if not reply.0
        then pure tt
        else do body ← lift reply.1; modify (λ d. record d { graph_ontology = some body })

  unfoldable pub load_graph : Action Dashboard (Unit {0})
  unfolding ◌>>=◌ send load_graph_ontology property is_text
  load_graph = do
    reply ← send (get "/api/graph/projection/status")
    if not reply.0 then pure tt else do
      status ← lift reply.1
      modify (λ d. record d { graph_projection = some status })
      if is_text "ready" (property "status" status) then load_graph_ontology else pure tt

  unfoldable pub refresh_graph : Dashboard → Dashboard
  unfolding load_graph
  refresh_graph d = ignored (load_graph d)

  unfoldable pub load_state_and_rules : Action Dashboard (Unit {0})
  unfolding ◌>>=◌ issue
  load_state_and_rules = do
    state_call ← issue (get "/api/state")
    rules_call ← issue (get "/api/rules")
    state_reply ← lift state_call
    rules_reply ← lift rules_call
    if not state_reply.0 || not rules_reply.0 then throw "Workspace runtime is unavailable." else do
      next_state ← lift state_reply.1
      next_rules ← lift rules_reply.1
      modify (λ d. record d { state = some next_state; rules = next_rules; error = "" })

  unfoldable pub refresh_state_and_rules : Dashboard → Dashboard
  unfolding load_state_and_rules
  refresh_state_and_rules d = shown (load_state_and_rules d)

  unfoldable pub queue_rebuild : Action Dashboard (Unit {0})
  unfolding ◌>>=◌ send refresh_graph
  queue_rebuild = do
    reply ← send (record { method = "POST"; path = "/api/graph/projection/rebuild"; body = none })
    if not reply.0 then throw "Could not queue the graph rebuild." else modify refresh_graph

  unfoldable pub rebuild_graph : Dashboard → Dashboard
  unfolding queue_rebuild
  rebuild_graph d = record (shown (queue_rebuild (record d { graph_busy = true }))) {
    graph_busy = false;
  }

  module _ (read_events : Json → List WorkspaceEvent) where
    unfoldable pub load_all : Action Dashboard (Unit {0})
    unfolding ◌>>=◌ issue show_operations refresh_agent_results
    load_all = do
      state_call ← issue (get "/api/state")
      events_call ← issue (get "/api/events?limit=40")
      rules_call ← issue (get "/api/rules")
      operations_call ← issue (get "/api/operations/summary")
      state_reply ← lift state_call
      events_reply ← lift events_call
      rules_reply ← lift rules_call
      operations_reply ← lift operations_call
      if not state_reply.0 || (not events_reply.0 || not rules_reply.0)
          then throw "Workspace runtime is unavailable."
          else do
            next_state ← lift state_reply.1
            next_events ← lift events_reply.1
            next_rules ← lift rules_reply.1
            modify (λ d. record d {
              state = some next_state;
              events = read_events next_events;
              rules = next_rules;
              error = "";
            })
            show_operations operations_reply
            modify refresh_agent_results

    unfoldable pub refresh : Dashboard → Dashboard
    unfolding load_all
    refresh d = shown (load_all d)

    unfoldable pub send_command : DeviceButton → Action Dashboard (Unit {0})
    unfolding ◌>>=◌ send toggle_command refresh
    send_command device = do
      reply ← send (record {
        method = "POST";
        path = "/api/devices/" <> (device.id <> "/commands");
        body = some (object (field "command" (string (toggle_command device)) end));
      })
      if not reply.0 then throw "The virtual device rejected the command." else modify refresh

    unfoldable pub toggle_device : DeviceButton → Dashboard → Dashboard
    unfolding send_command
    toggle_device device d =
        if device.type == "servo"
        then d
        else record (shown (send_command device (record d { busy = some device.id }))) {
          busy = none;
        }
