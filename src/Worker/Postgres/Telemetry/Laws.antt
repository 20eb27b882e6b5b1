-- ===== src/Worker/Postgres/Telemetry/Laws.antt =====
-- Telemetry is stored once (`insertTelemetry`), whichever calls fail.
use semantic_layer_explore.Prelude.{◌≡◌, refl, ◌≢◌, Bool, true, false, if◌then◌else◌}
use mathlib.Core.Path.{subst}
use semantic_layer_explore.Js.Runtime.{Runtime}
use semantic_layer_explore.Js.Result.{Result, ok, threw}
use semantic_layer_explore.Worker.Contracts.Telemetry.{TelemetryEvent}
use semantic_layer_explore.Worker.Store.Tables.{Position, insert_new}
use semantic_layer_explore.Worker.Store.Task.{World, Task, ◌>>=◌, query, pure}
use semantic_layer_explore.Worker.Store.Transaction.{Ending, commit, rollback}
use semantic_layer_explore.Worker.Store.Transaction.Outcome.{
  with_faults, query-bind, Outcome, committed, rolled_back, failed, transaction-Outcome,
}
use semantic_layer_explore.Worker.Postgres.Telemetry.{
  is_seen, mark_seen, insert_fresh, insert_telemetry,
}

abbrev Unchanged : World → Result Bool × World → Type 0
Unchanged w (ok d, v) = (d ≡ true) × (v.db ≡ w.db)
Unchanged w (threw e, v) = v.db ≡ w.db

Unchanged-parts :
    (w : World) (q : Result Bool × World) → Unchanged w q → (q.1.db ≡ w.db) × (q.0 ≢ ok false)
Unchanged-parts w (ok d, v) (same, h) = (h, λ e. cc (same, e))
Unchanged-parts w (threw e, v) h = (h, λ e. cc e)

module _ (rt : Runtime) (event : TelemetryEvent) (position : Position) where
  abbrev body : Task (Ending Bool)
  body = do
    seen ← query (λ db. (is_seen event.event_id db, mark_seen event.event_id db))
    if seen then pure (commit true) else insert_fresh rt event position

  -- The body, where the event was seen before.
  abbrev Skipped : World → Result (Ending Bool) × World → Type 0
  Skipped w (ok (commit d), v) = (d ≡ true) × (v.db ≡ w.db)
  Skipped w (ok (rollback d), v) = ⊥
  Skipped w (threw e, v) = Unit

  body-Skipped : (w : World) → is_seen event.event_id w.db ≡ true → Skipped w (body w)
  unfolding mark_seen insert_new pure
  body-Skipped w seen =
      query-bind (Skipped w) _
        (λ seen. if seen then pure (commit true) else insert_fresh rt event position) w
        (λ fs. rw seen (refl, refl)) (λ fs e. tt)

  skipped-Outcome :
      (w : World) (q : Result Bool × World)
      → is_seen event.event_id w.db ≡ true
      → Outcome body w q
      → Unchanged w q
  skipped-Outcome w q seen (committed fs gs a v e) =
      subst (Skipped w) e (body-Skipped (with_faults fs w) seen)
  skipped-Outcome w q seen (rolled_back fs gs a v e) =
      absurd (subst (Skipped w) e (body-Skipped (with_faults fs w) seen))
  skipped-Outcome w q seen (failed e v same) = same

  -- An event whose id was seen before changes nothing, however often it comes: the insertion
  -- reports a duplicate or throws, and the database stays as it is.
  pub insert_telemetry-seen :
      (w : World)
      → is_seen event.event_id w.db ≡ true
      → ((insert_telemetry rt event position w).1.db ≡ w.db)
        × ((insert_telemetry rt event position w).0 ≢ ok false)
  unfolding insert_telemetry
  insert_telemetry-seen w seen =
      Unchanged-parts w _ (skipped-Outcome w _ seen (transaction-Outcome body w))
