-- ===== src/Client/Timeline.antt =====
-- The event timeline of components/dashboard/workspace-dashboard.tsx: `mergeEvents`, the stream of
-- events, the visibility of the page, and the timer of the refresh.
pub mod Order
pub mod Collect
pub mod Merge
pub mod Each
pub mod Hidden
use semantic_layer_explore.Prelude.{
  ℕ, suc, ◌+◌, String, Bool, true, false, List, [], ◌∷◌, ◌++◌, ◌==◌, leb, take, if◌then◌else◌,
}
use semantic_layer_explore.Js.Json.{Json}

pub record WorkspaceEvent : Type 0 where
  pub id : ℕ
  pub event_id : String
  pub type : String
  pub source_type : String
  pub source_id : String
  pub payload : Json
  pub occurred_at : String

-- `byId.set`: a key that is there keeps its place.
unfoldable pub set_event : WorkspaceEvent → List WorkspaceEvent → List WorkspaceEvent
set_event e [] = e ∷ []
set_event e (f ∷ fs) = if f.event_id == e.event_id then e ∷ fs else f ∷ set_event e fs

-- The loop over the events, with the map as the list of its values.
unfoldable pub collect : List WorkspaceEvent → List WorkspaceEvent → List WorkspaceEvent
unfolding set_event
collect by_id [] = by_id
collect by_id (e ∷ es) = collect (set_event e by_id) es

-- `sort` by falling `id` is stable.
unfoldable pub insert_event : WorkspaceEvent → List WorkspaceEvent → List WorkspaceEvent
insert_event e [] = e ∷ []
insert_event e (f ∷ fs) = if leb f.id e.id then e ∷ f ∷ fs else f ∷ insert_event e fs

unfoldable pub sort_events : List WorkspaceEvent → List WorkspaceEvent
unfolding insert_event
sort_events [] = []
sort_events (e ∷ es) = insert_event e (sort_events es)

unfoldable pub merge_events : List WorkspaceEvent → List WorkspaceEvent → List WorkspaceEvent
unfolding collect sort_events
merge_events current incoming = take 40 (sort_events (collect [] (incoming ++ current)))

pub record Timeline : Type 0 where
  pub events : List WorkspaceEvent
  pub buffered : List WorkspaceEvent
  pub visible : Bool
  -- whether the timer of `scheduleStateAndRulesRefresh` runs
  pub refresh_scheduled : Bool
  -- how often `refreshStateAndRules` and `refreshAgentResults` were called
  pub state_refreshes : ℕ
  pub agent_refreshes : ℕ

unfoldable pub schedule_refresh : Timeline → Timeline
schedule_refresh t = if t.refresh_scheduled then t else record t { refresh_scheduled = true }

-- The timer's callback.
unfoldable pub refresh_timer : Timeline → Timeline
refresh_timer t = record t { refresh_scheduled = false; state_refreshes = t.state_refreshes + 1 }

-- The listener of `workspace-event`.
unfoldable pub receive_event : WorkspaceEvent → Timeline → Timeline
unfolding schedule_refresh
receive_event e t =
    if t.visible
    then (let shown = schedule_refresh (record t { events = merge_events t.events (e ∷ []) }) in
        record shown { agent_refreshes = shown.agent_refreshes + 1 })
    else record t { buffered = merge_events t.buffered (e ∷ []) }

abbrev flushed : List WorkspaceEvent → List WorkspaceEvent → List WorkspaceEvent
flushed events [] = events
flushed events (e ∷ es) = merge_events events (e ∷ es)

-- `handleVisibilityChange`
unfoldable pub change_visibility : Bool → Timeline → Timeline
change_visibility false t = record t { visible = false }
change_visibility true t = record t {
  visible = true;
  buffered = [];
  events = flushed t.events t.buffered;
  state_refreshes = t.state_refreshes + 1;
}

unfoldable pub receive_all : List WorkspaceEvent → Timeline → Timeline
unfolding receive_event
receive_all [] t = t
receive_all (e ∷ es) t = receive_all es (receive_event e t)
