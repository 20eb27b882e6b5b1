-- ===== src/Client/GraphView/Laws.antt =====
-- components/ontology/ontology-graph.tsx: loads and rebuilds do not race, and none of them is lost.
use semantic_layer_explore.Prelude.{
  ◌≡◌, ◌⊎◌, refl, sym, ◌∙◌, String, Bool, true, false, ◌&&◌, not, Option, none, some, List, [], ◌∷◌,
  ◌++◌, ◌==◌, arith, Bool-cases, inl, inr,
}
use mathlib.Core.Path.{subst}
use semantic_layer_explore.Js.Json.{Json}
use semantic_layer_explore.Js.Result.{Result, ok, threw}
use semantic_layer_explore.Client.Action.{Reply, opened}
use semantic_layer_explore.Client.Layout.{ProjectionGraph}
use semantic_layer_explore.Client.GraphView.{
  GraphMode, ProjectionStatus, View, Wait, rebuild_wait, status_wait, graph_wait, timer_wait,
  begin_load, fail_load, status_loaded, change_mode, rebuild_projection, rebuild_answered,
  status_answered, graph_answered, resume, Event, Run, changes, rebuilds, selects, resumes, mounts,
  then_event, is_projection, has_projection,
}

abbrev pub is_ready : Option ProjectionStatus → Bool
is_ready none = false
is_ready (some s) = s.status == "ready"

-- The status is ready while the graph is asked for; a projection that is shown during a rebuild is
-- still one whose status was ready.
abbrev pub Follows : Wait → Option ProjectionGraph → Option ProjectionStatus → Type 0
Follows graph_wait graph status = is_ready status ≡ true
Follows (rebuild_wait old) graph status = (graph ≡ none) ⊎ (is_ready status ≡ true)
Follows _ graph status = Unit

-- Either the view is not loading, nothing is waited for, and a projection is shown only with the
-- status ready; or the view is loading, one thing is waited for, and there is no error.
pub data IsSettled (v : View) : Type 0 where
  rests :
      v.loading ≡ false
      → v.awaiting ≡ []
      → (v.projection ≡ none) ⊎ (is_ready v.status ≡ true)
      → IsSettled v
  waits :
      (w : Wait)
      → v.loading ≡ true
      → v.awaiting ≡ w ∷ []
      → v.error ≡ ""
      → Follows w v.projection v.status
      → IsSettled v

one-taken :
    (before after : List Wait) (u w : Wait)
    → u ∷ [] ≡ before ++ w ∷ after
    → (w ≡ u) × (before ≡ []) × (after ≡ [])
one-taken [] after u w e = (cc e, refl, cc e)
one-taken (x ∷ []) after u w e = cc e
one-taken (x ∷ y ∷ before) after u w e = cc e

none-taken : (before after : List Wait) (w : Wait) → [] ≡ before ++ w ∷ after → ⊥
none-taken [] after w e = cc e
none-taken (x ∷ before) after w e = cc e

begin_load-IsSettled : (v : View) → v.awaiting ≡ [] → IsSettled (begin_load v)
unfolding begin_load
begin_load-IsSettled v e = waits status_wait refl (rw e refl) refl tt

fail_load-IsSettled : (e : String) (v : View) → v.awaiting ≡ [] → IsSettled (fail_load e v)
unfolding fail_load
fail_load-IsSettled e v h = rests refl h (inl refl)

status_loaded-IsSettled :
    (s : ProjectionStatus) (v : View)
    → v.awaiting ≡ []
    → v.loading ≡ true
    → v.error ≡ ""
    → IsSettled (status_loaded s v)
unfolding status_loaded
status_loaded-IsSettled s v h busy calm = elim (Bool-cases (s.status == "ready")) [
  | inl ready ↦ rw ready (waits graph_wait busy (rw h refl) calm ready)
  | inr other ↦ rw other (fail_load-IsSettled _ (record v { status = some s }) h)
]

module _ (read_status : Json → ProjectionStatus) (read_graph : Json → ProjectionGraph) (v : View)
    (h : v.awaiting ≡ []) (busy : v.loading ≡ true) (calm : v.error ≡ "") where
  rebuild_answered-IsSettled :
      (old : Option ProjectionStatus) (r : Result (Bool × Result Json))
      → (v.projection ≡ none) ⊎ (is_ready v.status ≡ true)
      → IsSettled (rebuild_answered old r v)
  unfolding rebuild_answered
  rebuild_answered-IsSettled old (threw e) shown = rests refl h shown
  rebuild_answered-IsSettled old (ok (false, json)) shown = rests refl h shown
  rebuild_answered-IsSettled old (ok (true, json)) shown = waits timer_wait busy (rw h refl) calm tt

  status_answered-IsSettled :
      (r : Result (Bool × Result Json)) → IsSettled (status_answered read_status read_graph r v)
  unfolding status_answered
  status_answered-IsSettled (threw e) = fail_load-IsSettled e v h
  status_answered-IsSettled (ok (false, json)) = fail_load-IsSettled _ v h
  status_answered-IsSettled (ok (true, threw e)) = fail_load-IsSettled e v h
  status_answered-IsSettled (ok (true, ok json)) =
      status_loaded-IsSettled (read_status json) v h busy calm

  graph_answered-IsSettled :
      (r : Result (Bool × Result Json))
      → is_ready v.status ≡ true
      → IsSettled (graph_answered read_status read_graph r v)
  unfolding graph_answered
  graph_answered-IsSettled (threw e) ready = fail_load-IsSettled e v h
  graph_answered-IsSettled (ok (false, json)) ready = fail_load-IsSettled _ v h
  graph_answered-IsSettled (ok (true, threw e)) ready = fail_load-IsSettled e v h
  graph_answered-IsSettled (ok (true, ok json)) ready = rests refl h (inr ready)

  resume-IsSettled :
      (w : Wait) (reply : Reply)
      → Follows w v.projection v.status
      → IsSettled (resume read_status read_graph w reply v)
  unfolding resume
  resume-IsSettled (rebuild_wait old) reply f = rebuild_answered-IsSettled old (opened reply) f
  resume-IsSettled status_wait reply f = status_answered-IsSettled (opened reply)
  resume-IsSettled graph_wait reply f = graph_answered-IsSettled (opened reply) f
  resume-IsSettled timer_wait reply f = begin_load-IsSettled v h

-- The mode and the selection do not matter.
dressed-IsSettled :
    (mode : GraphMode) (selected : Option String) (v : View)
    → IsSettled v
    → IsSettled (record v { mode = mode; selected_id = selected })
dressed-IsSettled mode selected v (rests a b c) = rests a b c
dressed-IsSettled mode selected v (waits w a b c d) = waits w a b c d

idle-awaiting : (v : View) → v.loading ≡ false → IsSettled v → v.awaiting ≡ []
idle-awaiting v idle (rests a b c) = b
idle-awaiting v idle (waits w a b c d) = cc (idle, a)

idle-shown :
    (v : View)
    → v.loading ≡ false
    → IsSettled v
    → (v.projection ≡ none) ⊎ (is_ready v.status ≡ true)
idle-shown v idle (rests a b c) = c
idle-shown v idle (waits w a b c d) = cc (idle, a)

change_mode-IsSettled : (next : GraphMode) (v : View) → IsSettled v → IsSettled (change_mode next v)
unfolding change_mode
change_mode-IsSettled next v h =
    elim (Bool-cases (is_projection next && not (has_projection v.projection) && not v.loading)) [
      | inl loads ↦
          let idle : v.loading ≡ false = ground arith in
          rw loads (
            begin_load-IsSettled (record v { mode = next; selected_id = none })
              (idle-awaiting v idle h))
      | inr stays ↦ rw stays (dressed-IsSettled next none v h)
    ]

taken-IsSettled :
    (read_status : Json → ProjectionStatus) (read_graph : Json → ProjectionGraph) (reply : Reply)
    (before : List Wait) (w : Wait) (after : List Wait) (v : View)
    → v.awaiting ≡ before ++ w ∷ after
    → IsSettled v
    → IsSettled (resume read_status read_graph w reply (record v { awaiting = before ++ after }))
taken-IsSettled read_status read_graph reply before w after v e (rests a b c) =
    absurd (none-taken before after w (sym b ∙ e))
taken-IsSettled read_status read_graph reply before w after v e (waits u a b c d) =
    let (same, no_before, no_after) = one-taken before after u w (sym b ∙ e) in
    resume-IsSettled read_status read_graph (record v { awaiting = before ++ after })
      (rw (no_before, no_after) refl) a c w reply
      (subst (λ x. Follows x v.projection v.status) (sym same) d)

Event-IsSettled : {v w : View} → Event v w → IsSettled v → IsSettled w
unfolding rebuild_projection
Event-IsSettled (changes next v) h = change_mode-IsSettled next v h
Event-IsSettled (rebuilds v free) h =
    let idle : v.loading ≡ false = ground arith in
    waits (rebuild_wait v.status) refl (rw (idle-awaiting v idle h) refl) refl (idle-shown v idle h)
Event-IsSettled (selects id v) h = dressed-IsSettled v.mode (some id) v h
Event-IsSettled (resumes read_status read_graph reply before w after v e) h =
    taken-IsSettled read_status read_graph reply before w after v e h

-- In every run of the component, whatever the order of clicks, replies and timers: while the view
-- says that it is loading, exactly one reply or timer is waited for, and no error is shown, so that no
-- two loads or rebuilds race and none is lost; and otherwise nothing is waited for, and a projection
-- that is there has the status ready.
pub Run-IsSettled : {v : View} → Run v → IsSettled v
Run-IsSettled mounts = rests refl refl (inl refl)
Run-IsSettled (then_event run event) = Event-IsSettled event (Run-IsSettled run)
