-- ===== src/Client/GraphView.antt =====
-- The handlers of `OntologyGraph`, components/ontology/ontology-graph.tsx. `read_status` and
-- `read_graph` take the fields out of the JSON that is cast to the two types. A handler stops at
-- every request; what waits for a reply or for a timer is part of the state, and the reply can come
-- after any other event. The view is drawn again before the next event. A request is answered once
-- its response has come and, where the code reads it, its JSON.
pub mod Laws
use semantic_layer_explore.Prelude.{
  ℕ, String, Bool, true, false, ◌&&◌, ◌||◌, not, Option, none, some, List, [], ◌∷◌, ◌++◌, ◌==◌,
  or_else, ◌≡◌, if◌then◌else◌,
}
use semantic_layer_explore.Js.Json.{Json}
use semantic_layer_explore.Js.Text.{◌<>◌}
use semantic_layer_explore.Js.Result.{Result, ok, threw}
use semantic_layer_explore.Client.Action.{Reply, opened}
use semantic_layer_explore.Client.Layout.{ProjectionGraph}

pub data GraphMode : Type 0 where
  source projection : GraphMode

pub record ProjectionStatus : Type 0 where
  pub status : String
  pub node_count : ℕ
  pub relation_count : ℕ
  pub error_message : Option String

-- What a handler waits for: the reply to a rebuild, with the status that was shown at the click, to
-- a request for the status or for the graph, and the timer that loads the projection.
pub data Wait : Type 0 where
  rebuild_wait : Option ProjectionStatus → Wait
  status_wait graph_wait timer_wait : Wait

pub record View : Type 0 where
  pub mode : GraphMode
  pub projection : Option ProjectionGraph
  pub status : Option ProjectionStatus
  pub selected_id : Option String
  pub loading : Bool
  pub error : String
  pub awaiting : List Wait

-- The component as it is mounted.
abbrev pub mounted : View
mounted = record {
  mode = source;
  projection = none;
  status = none;
  selected_id = none;
  loading = false;
  error = "";
  awaiting = [];
}

unfoldable pub status_message : ProjectionStatus → String
status_message s =
    let message = or_else s.error_message "" in
    if message == "" then "Projection is " <> (s.status <> ".") else message

abbrev pub is_running : Option ProjectionStatus → Bool
is_running none = false
is_running (some s) = s.status == "running"

unfoldable pub running : Option ProjectionStatus → ProjectionStatus
running none = record {
  status = "running";
  node_count = 0;
  relation_count = 0;
  error_message = none;
}
running (some s) = record {
  status = "running";
  node_count = s.node_count;
  relation_count = s.relation_count;
  error_message = none;
}

abbrev pub has_projection : Option ProjectionGraph → Bool
has_projection none = false
has_projection (some g) = true

abbrev pub is_projection : GraphMode → Bool
is_projection source = false
is_projection projection = true

abbrev pub awaits : Wait → View → View
awaits w v = record v { awaiting = v.awaiting ++ w ∷ [] }

-- `loadProjection` up to its first `await`
unfoldable pub begin_load : View → View
begin_load v = awaits status_wait (record v { loading = true; error = "" })

-- The `catch` and the `finally` of `loadProjection`.
unfoldable pub fail_load : String → View → View
fail_load e v = record v { projection = none; error = e; loading = false }

unfoldable pub status_loaded : ProjectionStatus → View → View
unfolding status_message fail_load
status_loaded s v =
    let t = record v { status = some s } in
    if s.status == "ready" then awaits graph_wait t else fail_load (status_message s) t

unfoldable pub change_mode : GraphMode → View → View
unfolding begin_load
change_mode next v =
    let t = record v { mode = next; selected_id = none } in
    if is_projection next && not (has_projection v.projection) && not v.loading
    then begin_load t
    else t

-- `rebuildProjection` up to its `await`
unfoldable pub rebuild_projection : View → View
rebuild_projection v = awaits (rebuild_wait v.status) (record v { loading = true; error = "" })

abbrev pub fail_rebuild : String → View → View
fail_rebuild e v = record v { error = e; loading = false }

-- The rest of `rebuildProjection`.
unfoldable pub rebuild_answered :
    Option ProjectionStatus → Result (Bool × Result Json) → View → View
unfolding running
rebuild_answered old (threw e) v = fail_rebuild e v
rebuild_answered old (ok (false, json)) v = fail_rebuild "Neo4j rebuild could not be queued." v
rebuild_answered old (ok (true, json)) v =
    awaits timer_wait (record v { status = some (running old) })

module _ (read_status : Json → ProjectionStatus) (read_graph : Json → ProjectionGraph) where
  -- `loadProjection` from the reply of the status on
  unfoldable pub status_answered : Result (Bool × Result Json) → View → View
  unfolding fail_load status_loaded
  status_answered (threw e) v = fail_load e v
  status_answered (ok (false, json)) v = fail_load "Neo4j graph profile is unavailable." v
  status_answered (ok (true, threw e)) v = fail_load e v
  status_answered (ok (true, ok json)) v = status_loaded (read_status json) v

  -- `loadProjection` from the reply of the graph on
  unfoldable pub graph_answered : Result (Bool × Result Json) → View → View
  unfolding fail_load
  graph_answered (threw e) v = fail_load e v
  graph_answered (ok (false, json)) v = fail_load "Neo4j projection could not be queried." v
  graph_answered (ok (true, threw e)) v = fail_load e v
  graph_answered (ok (true, ok json)) v = record v {
    projection = some (read_graph json);
    loading = false;
  }

  -- A handler goes on; a timer has no reply.
  unfoldable pub resume : Wait → Reply → View → View
  unfolding status_answered graph_answered rebuild_answered begin_load
  resume (rebuild_wait old) reply v = rebuild_answered old (opened reply) v
  resume status_wait reply v = status_answered (opened reply) v
  resume graph_wait reply v = graph_answered (opened reply) v
  resume timer_wait reply v = begin_load v

-- What happens to the component: the mode's buttons, the button of the rebuild, which is disabled at
-- times, a click on a node, and the end of something that is waited for, in any order. The replies of
-- the API and their contents are any.
pub data Event : View → View → Type 0 where
  changes : (next : GraphMode) (v : View) → Event v (change_mode next v)
  rebuilds :
      (v : View) → (v.loading || is_running v.status) ≡ false → Event v (rebuild_projection v)
  selects : (id : String) (v : View) → Event v (record v { selected_id = some id })
  resumes :
      (read_status : Json → ProjectionStatus) (read_graph : Json → ProjectionGraph) (reply : Reply)
      (before : List Wait) (w : Wait) (after : List Wait) (v : View)
      → v.awaiting ≡ before ++ w ∷ after
      → Event v (resume read_status read_graph w reply (record v { awaiting = before ++ after }))

pub data Run : View → Type 0 where
  mounts : Run mounted
  then_event : {v w : View} → Run v → Event v w → Run w
