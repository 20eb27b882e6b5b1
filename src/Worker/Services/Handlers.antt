-- ===== src/Worker/Services/Handlers.antt =====
-- worker/src/telemetry/telemetry-service.ts, worker/src/audit/audit-service.ts and
-- worker/src/commands/command-result-service.ts. `recordTelemetryAccepted` only writes a log line.
use semantic_layer_explore.Prelude.{String, some, [], ◌∷◌, if◌then◌else◌}
use semantic_layer_explore.Js.Json.{Json, string, object, object_of}
use semantic_layer_explore.Js.Runtime.{Runtime}
use semantic_layer_explore.Worker.Config.{Config}
use semantic_layer_explore.Worker.Contracts.Telemetry.{TelemetryEvent}
use semantic_layer_explore.Worker.Contracts.CommandResult.{CommandResult}
use semantic_layer_explore.Worker.Store.Tables.{Position}
use semantic_layer_explore.Worker.Store.Task.{Task, ◌>>=◌, pure, time, next_uuid, try_catch}
use semantic_layer_explore.Worker.Postgres.Telemetry.{insert_telemetry}
use semantic_layer_explore.Worker.Postgres.Records.{insert_audit_event}
use semantic_layer_explore.Worker.Postgres.Rules.{apply_deterministic_rules}
use semantic_layer_explore.Worker.Postgres.Commands.{apply_command_result}
use semantic_layer_explore.Worker.Services.Decision.{should_run, run_for_telemetry}

unfoldable pub failure_json : TelemetryEvent → String → Json
unfolding object_of
failure_json event error = object (
    object_of (
      ("schemaVersion", some (string "audit-event.v1"))
      ∷ ("eventId", some (string event.event_id))
      ∷ ("deviceId", some (string event.device_id))
      ∷ ("sensorId", some (string event.sensor_id))
      ∷ ("error", some (string error))
      ∷ []))

unfoldable pub record_mastra_decision_failed : Runtime → TelemetryEvent → String → Task (Unit {0})
unfolding insert_audit_event failure_json
record_mastra_decision_failed rt event error = do
  id ← next_uuid
  occurred_at ← time
  _ ← insert_audit_event (record {
    audit_id = rt.uuid id;
    type = "mastra.telemetry.failed";
    occurred_at = occurred_at;
    payload = failure_json event error;
    correlation_id = event.correlation_id;
  })
  pure tt

unfoldable pub handle_telemetry : Config → Runtime → TelemetryEvent → Position → Task (Unit {0})
unfolding insert_telemetry apply_deterministic_rules should_run run_for_telemetry
    record_mastra_decision_failed
handle_telemetry config rt event position = do
  duplicate ← insert_telemetry rt event position
  if duplicate then (do _ ← apply_deterministic_rules rt event; pure tt) else do
    _ ← apply_deterministic_rules rt event
    if should_run config event
        then try_catch (run_for_telemetry config rt event) (record_mastra_decision_failed rt event)
        else pure tt

unfoldable pub handle_command_result : Runtime → CommandResult → Task (Unit {0})
unfolding apply_command_result
handle_command_result rt result = do _ ← apply_command_result rt result; pure tt
