-- ===== src/Worker/Postgres/Telemetry/Stored.antt =====
-- What an insertion of telemetry comes to (`insertTelemetry`), whichever calls fail.
use semantic_layer_explore.Prelude.{
  ℕ, ◌≡◌, ◌⊎◌, inl, inr, refl, ap, sym, ◌∙◌, Bool, true, false, some, ◌^◌, if◌then◌else◌,
}
use semantic_layer_explore.Js.Number.{Number, less, of_nat}
use semantic_layer_explore.Js.Runtime.{Runtime}
use semantic_layer_explore.Js.Result.{Result, ok, threw}
use semantic_layer_explore.Worker.Contracts.Telemetry.{TelemetryEvent}
use semantic_layer_explore.Worker.Store.Tables.{Database, Position, TelemetryRow, insert_new}
use semantic_layer_explore.Worker.Store.Task.{World, Task, ◌>>=◌, ◌>>◌, pure, apply, query, update}
use semantic_layer_explore.Worker.Store.Post.{lift-post, update-post}
use semantic_layer_explore.Worker.Store.Transaction.{Ending, commit}
use semantic_layer_explore.Worker.Store.Transaction.Outcome.{with_faults, external-bind, query-bind}
use semantic_layer_explore.Worker.Store.Transaction.Post.{Inside, transaction-post}
use semantic_layer_explore.Worker.Postgres.Telemetry.{
  cast_time, cast_bigint, telemetry_row, reading_event, has_telemetry, is_seen, mark_seen,
  add_telemetry, add_workspace_event, insert_fresh, insert_telemetry,
}
use semantic_layer_explore.Worker.Postgres.Telemetry.Casts.{cast_time-ok, cast_bigint-ok}

module _ (rt : Runtime) (event : TelemetryEvent) (position : Position) (now : ℕ) where
  -- The tables with the mark, the row and the event of the workspace.
  abbrev pub with_reading : ℕ → Database → Database
  with_reading measured_at a = add_workspace_event (reading_event event measured_at) (
      add_telemetry (telemetry_row event position event.sequence measured_at now)
        (mark_seen event.event_id a))

  abbrev pub Stored : Database → Result Bool → Database → Type 0
  Stored a (ok true) b =
      (b ≡ (if is_seen event.event_id a then a else mark_seen event.event_id a))
      × ((is_seen event.event_id a ≡ true) ⊎ (has_telemetry event.event_id a ≡ true))
  Stored a (ok false) b =
      (is_seen event.event_id a ≡ false)
      × (has_telemetry event.event_id a ≡ false)
      × (less event.sequence (of_nat (2 ^ 63)) ≡ true)
      × ((measured_at : ℕ) × (rt.timestamptz event.measured_at ≡ some measured_at)
          × (b ≡ with_reading measured_at a))
  Stored a (threw e) b = b ≡ a

module _ (rt : Runtime) (event : TelemetryEvent) (position : Position) (w : World) where
  abbrev P : Result (Ending Bool) × World → Type 0
  P = Inside (Stored rt event position w.now w.db) w.db

  abbrev if_present : ℕ → Bool → Task (Ending Bool)
  if_present measured_at present =
      if present
      then pure (commit true)
      else do update (add_workspace_event (reading_event event measured_at)); pure (commit false)

  abbrev row_at : ℕ → TelemetryRow
  row_at measured_at = telemetry_row event position event.sequence measured_at w.now

  add_telemetry-present :
      (db : Database) (measured_at : ℕ)
      → has_telemetry event.event_id db ≡ true
      → add_telemetry (row_at measured_at) db ≡ db
  unfolding add_telemetry insert_new telemetry_row
  add_telemetry-present db measured_at h = rw h refl

  has_telemetry-mark :
      (db : Database)
      → has_telemetry event.event_id (mark_seen event.event_id db) ≡ has_telemetry event.event_id db
  unfolding mark_seen
  has_telemetry-mark db = refl

  present-Stored :
      (v : World) (measured_at : ℕ) (present : Bool)
      → is_seen event.event_id w.db ≡ false
      → less event.sequence (of_nat (2 ^ 63)) ≡ true
      → rt.timestamptz event.measured_at ≡ some measured_at
      → has_telemetry event.event_id w.db ≡ present
      → v.db
        ≡ add_telemetry
            (telemetry_row event position event.sequence measured_at w.now)
            (mark_seen event.event_id w.db)
      → P (if_present measured_at present v)
  unfolding pure
  present-Stored v measured_at true fresh fits there has same = (
    rw fresh (
        same
        ∙ add_telemetry-present (mark_seen event.event_id w.db) measured_at
            (has_telemetry-mark w.db ∙ has)),
    inr has,
  )
  present-Stored v measured_at false fresh fits there new same =
      update-post P (add_workspace_event (reading_event event measured_at)) _ v
        (λ fs. (
          fresh,
          new,
          fits,
          (measured_at, there, ap (add_workspace_event (reading_event event measured_at)) same),
        ))
        (λ fs e. tt)

  row_same :
      (sequence : Number) (measured_at now : ℕ)
      → sequence ≡ event.sequence
      → now ≡ w.now
      → (db : Database) → db ≡ mark_seen event.event_id w.db
      → add_telemetry (telemetry_row event position sequence measured_at now) db
        ≡ add_telemetry (row_at measured_at) (mark_seen event.event_id w.db)
  row_same sequence measured_at now e clock db same = rw (e, clock, same) refl

  fresh-Stored :
      (v : World)
      → v.now ≡ w.now
      → v.db ≡ mark_seen event.event_id w.db
      → is_seen event.event_id w.db ≡ false
      → P (insert_fresh rt event position v)
  unfolding insert_fresh apply ◌>>=◌
  fresh-Stored v clock same fresh =
      external-bind P _ v
        (λ fs.
          lift-post P (cast_bigint event.sequence) _ (with_faults fs v)
            (λ sequence fits.
              lift-post P (cast_time rt event.measured_at) _ (with_faults fs v)
                (λ measured_at there.
                  let (below, equal) = cast_bigint-ok event.sequence sequence fits in
                  present-Stored
                    (record v {
                      db =
                          add_telemetry (telemetry_row event position sequence measured_at v.now)
                            v.db;
                      faults = fs;
                    })
                    measured_at (has_telemetry event.event_id v.db) fresh below
                    (cast_time-ok rt event.measured_at measured_at there)
                    (sym (has_telemetry-mark w.db) ∙ ap (has_telemetry event.event_id) (sym same))
                    (row_same sequence measured_at v.now equal clock v.db same))
                (λ e failed. tt))
            (λ e failed. tt))
        (λ fs e. tt)

  abbrev if_seen : Bool → Task (Ending Bool)
  if_seen seen = if seen then pure (commit true) else insert_fresh rt event position

  seen-Stored :
      (seen : Bool) (v : World)
      → is_seen event.event_id w.db ≡ seen
      → v.now ≡ w.now
      → v.db ≡ mark_seen event.event_id w.db
      → P (if_seen seen v)
  unfolding pure mark_seen insert_new
  seen-Stored true v seen clock same = (rw seen (same ∙ rw seen refl), inl seen)
  seen-Stored false v fresh clock same = fresh-Stored v clock same fresh

  -- A duplicate is an event whose id is marked, and then nothing changes, or whose row is there, and
  -- then the mark is added at most. An event that is stored had neither: its mark, its row with the
  -- position of the message, and the reading for the workspace are added, its sequence fits 64
  -- bits and its time is one that PostgreSQL reads. A call that throws changes nothing.
  pub insert_telemetry-Stored :
      Stored rt event position w.now w.db
        (insert_telemetry rt event position w).0
        (insert_telemetry rt event position w).1.db
  unfolding insert_telemetry
  insert_telemetry-Stored =
      transaction-post (Stored rt event position w.now w.db) w.db
        (query (λ db. (is_seen event.event_id db, mark_seen event.event_id db)) >>= if_seen) w refl
        (λ fs.
          query-bind P (λ db. (is_seen event.event_id db, mark_seen event.event_id db)) if_seen
            (with_faults fs w)
            (λ gs.
              seen-Stored (is_seen event.event_id w.db)
                (record w { db = mark_seen event.event_id w.db; faults = gs }) refl refl refl)
            (λ gs e. tt))
        (λ e. refl)
