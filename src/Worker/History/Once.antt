-- ===== src/Worker/History/Once.antt =====
-- An event that the worker has stored is never stored again in any later run.
use semantic_layer_explore.Prelude.{
  String, ◌≡◌, ◌≢◌, ◌∙◌, true, false, [], ◌∷◌, ◌==◌, any-append, arith, Bool-cases, inl, inr,
}
use semantic_layer_explore.Js.Runtime.{Runtime}
use semantic_layer_explore.Js.Result.{ok}
use semantic_layer_explore.Worker.Config.{Config}
use semantic_layer_explore.Worker.Contracts.Telemetry.{TelemetryEvent}
use semantic_layer_explore.Worker.Store.Tables.{Database, Position, insert_new}
use semantic_layer_explore.Worker.Store.Task.{World}
use semantic_layer_explore.Worker.Postgres.Telemetry.{
  is_seen, mark_seen, add_telemetry, add_workspace_event, insert_telemetry,
}
use semantic_layer_explore.Worker.Postgres.Telemetry.Laws.{insert_telemetry-seen}
use semantic_layer_explore.Worker.Postgres.Records.{append_dead_letter, add_audit}
use semantic_layer_explore.Worker.Postgres.Rules.{touch_rule, add_command}
use semantic_layer_explore.Worker.Postgres.Commands.{set_state, finish_command}
use semantic_layer_explore.Worker.Postgres.Retention.{purge_telemetry, purge_readings, purge_audit}
use semantic_layer_explore.Worker.Writes.{Write, seen}
use semantic_layer_explore.Worker.History.{Reach}
use semantic_layer_explore.Worker.History.Invariant.{Reach-keeps}

seen_again :
    (id new : String) (db : Database) → is_seen id db ≡ true → is_seen id (mark_seen new db) ≡ true
unfolding mark_seen insert_new
seen_again id new db h = elim (Bool-cases (is_seen new db)) [
  | inl old ↦ rw old h
  | inr fresh ↦ rw fresh (any-append (λ k. k == id) db.dedup (new ∷ []) ∙ ground (arith, h))
]

Write-is_seen :
    (id : String) {a b : Database} → Write a b → is_seen id a ≡ true → is_seen id b ≡ true
unfolding add_telemetry add_workspace_event add_audit append_dead_letter add_command touch_rule
    set_state finish_command purge_telemetry purge_readings purge_audit
Write-is_seen id (seen new db) h = seen_again id new db h
Write-is_seen id _ h = h

-- Once an event id is marked, then after any run of the worker (the cleanups delete the rows of the
-- telemetry, not the marks) an insertion of an event of that id leaves the database as it is and
-- does not report it as new.
pub Reach-stored_once :
    (config : Config) (rt : Runtime) (event : TelemetryEvent) (position : Position) {w v : World}
    → is_seen event.event_id w.db ≡ true
    → Reach config rt w v
    → ((insert_telemetry rt event position v).1.db ≡ v.db)
      × ((insert_telemetry rt event position v).0 ≢ ok false)
Reach-stored_once config rt event position {v} h r = insert_telemetry-seen rt event position v (
    Reach-keeps (λ db. is_seen event.event_id db ≡ true) (λ a b x. Write-is_seen event.event_id x)
      (λ db rules sensors devices k. k) config rt r h)
