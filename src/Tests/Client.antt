-- ===== src/Tests/Client.antt =====
-- The theorems on the event timeline and on the graph, at concrete inputs.
use semantic_layer_explore.Prelude.{
  ℕ, String, true, false, none, List, [], ◌∷◌, ◌≡◌, ◌≢◌, refl, arith, ◌==◌, inl, inr, eq_iff,
}
use semantic_layer_explore.Js.Json.{Json, null}
use semantic_layer_explore.Js.Result.{ok}
use semantic_layer_explore.Client.Action.{Reply, response}
use semantic_layer_explore.Client.Timeline.{
  WorkspaceEvent, merge_events, Timeline, change_visibility, receive_all,
}
use semantic_layer_explore.Client.Timeline.Merge.{IsMerge, merge_events-IsMerge}
use semantic_layer_explore.Client.Timeline.Hidden.{change_visibility-receive_all}
use semantic_layer_explore.Client.Layout.{ProjectionNode, ProjectionGraph, projection_nodes}
use semantic_layer_explore.Client.Layout.Numbering.{Pairwise}
use semantic_layer_explore.Client.Layout.Laws.{IsApart, projection_nodes-IsApart}
use semantic_layer_explore.Client.GraphView.{
  ProjectionStatus, View, mounted, rebuild_wait, status_wait, graph_wait, timer_wait, resume,
  rebuild_projection, Run, mounts, then_event, rebuilds, resumes, rebuild_answered, begin_load,
  status_answered, status_loaded,
}
use semantic_layer_explore.Client.GraphView.Laws.{IsSettled, Run-IsSettled}

abbrev event : ℕ → String → WorkspaceEvent
event id name = record {
  id = id;
  event_id = name;
  type = "sensor.reading";
  source_type = "sensor";
  source_id = "t-1";
  payload = null;
  occurred_at = "";
}

ids_differ : (s t : String) → (s == t) ≡ false → s ≢ t
ids_differ s t h e = let same = (eq_iff s t).1 e in cc (h, same)

-- One event comes again, one is new.
merge_events-IsMerge_example :
    IsMerge
      (event 2 "b" ∷ event 1 "a" ∷ [])
      (event 3 "c" ∷ event 2 "b" ∷ [])
      (merge_events (event 2 "b" ∷ event 1 "a" ∷ []) (event 3 "c" ∷ event 2 "b" ∷ []))
merge_events-IsMerge_example =
    merge_events-IsMerge (event 2 "b" ∷ event 1 "a" ∷ []) (event 3 "c" ∷ event 2 "b" ∷ [])
      ((ids_differ "a" "b" refl, tt), (tt, tt)) ((ids_differ "b" "c" refl, tt), (tt, tt))

abbrev page : Timeline
page = record {
  events = event 2 "b" ∷ event 1 "a" ∷ [];
  buffered = [];
  visible = true;
  refresh_scheduled = false;
  state_refreshes = 0;
  agent_refreshes = 0;
}

abbrev news : List WorkspaceEvent
news = event 4 "d" ∷ event 3 "c" ∷ []

change_visibility-receive_all_example :
    ((change_visibility true (receive_all news (change_visibility false page))).events
      ≡ (receive_all news page).events)
    × ((change_visibility true (receive_all news (change_visibility false page))).buffered ≡ [])
change_visibility-receive_all_example =
    change_visibility-receive_all page news refl refl ((omega arith, tt), (tt, tt))
      ((ids_differ "a" "b" refl, tt), (tt, tt)) (omega arith)
      (
        (ids_differ "b" "d" refl, (ids_differ "a" "d" refl, tt)),
        ((ids_differ "b" "c" refl, (ids_differ "a" "c" refl, tt)), tt),
      )
      ((ids_differ "c" "d" refl, tt), (tt, tt))
      (((omega arith), ((omega arith), tt)), (((omega arith), ((omega arith), tt)), tt))

abbrev node : String → String → ProjectionNode
node id kind = record { id = id; kind = kind; name = id; class_name = none; external_id = none }

abbrev graph : ProjectionGraph
graph = record {
  nodes = node "c1" "Class" ∷ node "i1" "Individual" ∷ node "c2" "Class" ∷ node "c3" "Class" ∷ [];
  relations = [];
}

projection_nodes-IsApart_example : Pairwise IsApart (projection_nodes graph)
projection_nodes-IsApart_example =
    projection_nodes-IsApart graph (inl refl, (inr (inr refl), (inl refl, (inl refl, tt))))

abbrev accepted : Reply
accepted = response true (ok null)

abbrev read_status : Json → ProjectionStatus
read_status body = record {
  status = "ready";
  node_count = 4;
  relation_count = 0;
  error_message = none;
}

abbrev read_graph : Json → ProjectionGraph
read_graph body = graph

-- A rebuild is queued, its timer goes off, and the status is answered.
abbrev rebuilding : View
rebuilding = rebuild_projection mounted

abbrev queued : View
queued =
    resume read_status read_graph (rebuild_wait none) accepted (record rebuilding { awaiting = [] })

abbrev loading_status : View
loading_status = resume read_status read_graph timer_wait accepted (record queued { awaiting = [] })

abbrev loading_graph : View
loading_graph =
    resume read_status read_graph status_wait accepted (record loading_status { awaiting = [] })

loading_graph-Run : Run loading_graph
unfolding rebuild_projection resume rebuild_answered begin_load
loading_graph-Run =
    then_event
      (then_event
        (then_event (then_event mounts (rebuilds mounted refl))
          (resumes read_status read_graph accepted [] (rebuild_wait none) [] rebuilding refl))
        (resumes read_status read_graph accepted [] timer_wait [] queued refl))
      (resumes read_status read_graph accepted [] status_wait [] loading_status refl)

loading_graph_waits : loading_graph.awaiting ≡ graph_wait ∷ []
unfolding rebuild_projection resume rebuild_answered begin_load status_answered status_loaded
loading_graph_waits = refl

Run-IsSettled_example : IsSettled loading_graph
Run-IsSettled_example = Run-IsSettled loading_graph-Run
