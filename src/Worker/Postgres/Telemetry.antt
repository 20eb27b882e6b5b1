-- ===== src/Worker/Postgres/Telemetry.antt =====
-- `insertTelemetry` of worker/src/persistence/postgres-service.ts
pub mod Casts
pub mod Laws
pub mod Stored
use semantic_layer_explore.Prelude.{
  ℕ, suc, ◌+◌, ◌*◌, ◌^◌, String, Bool, true, false, ◌&&◌, ◌||◌, not, Option, none, some, List, [],
  ◌∷◌, ◌++◌, ◌==◌, any, or_else, if◌then◌else◌, is_some,
}
use semantic_layer_explore.Js.Number.{Number, less, of_nat}
use semantic_layer_explore.Js.Json.{Json, string, object, object_of, property}
use semantic_layer_explore.Js.Runtime.{Runtime}
use semantic_layer_explore.Js.Result.{Result, ok, threw}
use semantic_layer_explore.Worker.Contracts.Telemetry.{TelemetryEvent, Payload}
use semantic_layer_explore.Worker.Store.Tables.{
  Database, Position, TelemetryRow, WorkspaceEvent, insert_new,
}
use semantic_layer_explore.Worker.Store.Task.{
  World, Task, ◌>>=◌, ◌>>◌, pure, throw, lift, time, external, apply, query, update,
}
use semantic_layer_explore.Worker.Store.Transaction.{Ending, commit, rollback, transaction}

-- The cast of a query's parameter to `timestamptz`.
unfoldable pub cast_time : Runtime → String → Result ℕ
cast_time rt s = elim (rt.timestamptz s) [
  | none ↦ threw "invalid input syntax for type timestamp with time zone"
  | some t ↦ ok t
]

-- The cast of a whole number that is not negative to `bigint`.
unfoldable pub cast_bigint : Number → Result Number
unfolding less of_nat
cast_bigint n = if less n (of_nat (2 ^ 63)) then ok n else threw "out of range for type bigint"

unfoldable pub reading_source : TelemetryEvent → String
reading_source event = or_else event.source "mqtt"

-- The reading that both kinds of event carry.
unfoldable pub reading_json : TelemetryEvent → Json
unfolding object_of reading_source
reading_json event = object (
    object_of (
      ("eventId", some (string event.event_id))
      ∷ ("sensorId", some (string event.sensor_id))
      ∷ ("sensorType", some (string event.payload.kind))
      ∷ ("value", some event.payload.value)
      ∷ ("unit", some (string event.payload.unit))
      ∷ ("measuredAt", some (string event.measured_at))
      ∷ ("source", some (string (reading_source event)))
      ∷ []))

abbrev null_or : Option Json → Json
null_or none = Json.null
null_or (some v) = v

unfoldable pub telemetry_row : TelemetryEvent → Position → Number → ℕ → ℕ → TelemetryRow
unfolding reading_source property
telemetry_row event position sequence measured_at now = record {
  event_id = event.event_id;
  device_id = event.device_id;
  sensor_id = event.sensor_id;
  sequence = sequence;
  measured_at = measured_at;
  source = reading_source event;
  payload = null_or (property "payload" event.raw);
  position = position;
  processed_at = now;
}

unfoldable pub reading_event : TelemetryEvent → ℕ → WorkspaceEvent
unfolding reading_json
reading_event event measured_at = record {
  event_id = event.event_id;
  type = "sensor.reading";
  source_type = "sensor";
  source_id = event.sensor_id;
  payload = reading_json event;
  occurred_at = measured_at;
}

abbrev pub has_telemetry : String → Database → Bool
has_telemetry id db = any (λ r. r.event_id == id) db.telemetry

abbrev pub is_seen : String → Database → Bool
is_seen id db = any (λ k. k == id) db.dedup

unfoldable pub mark_seen : String → Database → Database
unfolding insert_new
mark_seen id db = record db { dedup = insert_new (λ k. k == id) id db.dedup }

unfoldable pub add_telemetry : TelemetryRow → Database → Database
unfolding insert_new
add_telemetry row db = record db {
  telemetry = insert_new (λ r. r.event_id == row.event_id) row db.telemetry;
}

unfoldable pub add_workspace_event : WorkspaceEvent → Database → Database
unfolding insert_new
add_workspace_event e db = record db {
  workspace_events = insert_new (λ r. r.event_id == e.event_id) e db.workspace_events;
}

-- From the insertion into `telemetry_event` on; the result is whether the row was there.
unfoldable pub insert_fresh : Runtime → TelemetryEvent → Position → Task (Ending Bool)
unfolding cast_time cast_bigint external update telemetry_row reading_event add_telemetry
    add_workspace_event
insert_fresh rt event position = do
  now ← time
  external
  sequence ← lift (cast_bigint event.sequence)
  measured_at ← lift (cast_time rt event.measured_at)
  let row = telemetry_row event position sequence measured_at now
  present ← apply (λ db. (has_telemetry event.event_id db, add_telemetry row db))
  if present
      then pure (commit true)
      else do update (add_workspace_event (reading_event event measured_at)); pure (commit false)

-- The result is `duplicate`.
unfoldable pub insert_telemetry : Runtime → TelemetryEvent → Position → Task Bool
insert_telemetry rt event position = transaction (do
  seen ← query (λ db. (is_seen event.event_id db, mark_seen event.event_id db))
  if seen then pure (commit true) else insert_fresh rt event position)
