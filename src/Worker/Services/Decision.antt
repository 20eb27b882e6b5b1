-- ===== src/Worker/Services/Decision.antt =====
-- worker/src/mastra/mastra-decision-service.ts, worker/src/agent-result/telemetry-decision.ts and
-- agent-result-publisher.ts
use semantic_layer_explore.Prelude.{
  ℕ, String, Bool, true, false, ◌&&◌, Option, none, some, [], ◌∷◌, ◌++◌, ◌==◌, if◌then◌else◌,
  is_some,
}
use semantic_layer_explore.Js.Number.{Number, at_most}
use semantic_layer_explore.Js.Json.{
  Json, boolean, number, string, array, object, object_of, items_of,
}
use semantic_layer_explore.Js.Text.{◌<>◌}
use semantic_layer_explore.Js.Runtime.{Runtime}
use semantic_layer_explore.Worker.Config.{Config}
use semantic_layer_explore.Worker.Contracts.Telemetry.{TelemetryEvent}
use semantic_layer_explore.Worker.Store.Tables.{AuditEvent}
use semantic_layer_explore.Worker.Store.Task.{
  Task, Message, ◌>>=◌, ◌>>◌, pure, time, gets, modify, next_uuid, external,
}
use semantic_layer_explore.Worker.Postgres.Records.{insert_audit_event}

pub record AgentResult : Type 0 where
  pub result_id : String
  pub kind : String
  pub status : String
  pub summary : String
  pub payload : Json
  pub created_at : ℕ
  pub correlation_id : String

-- `typeof value === "number" && value >= limit`, and `<=`
unfoldable pub is_above : Json → Number → Bool
unfolding at_most
is_above (number n) limit = at_most limit n
is_above _ limit = false

unfoldable pub is_below : Json → Number → Bool
unfolding at_most
is_below (number n) limit = at_most n limit
is_below _ limit = false

unfoldable pub is_pressed : Json → Bool
is_pressed (boolean b) = b
is_pressed _ = false

unfoldable pub find_trigger : Config → TelemetryEvent → Option String
unfolding is_above is_below is_pressed
find_trigger config event =
    if config.mastra_telemetry_mode == "disabled"
    then none
    else if event.payload.kind == "temperature"
        && is_above event.payload.value config.mastra_temperature_threshold
    then some "temperature-threshold"
    else if event.payload.kind == "distance"
        && is_below event.payload.value config.mastra_distance_threshold
    then some "distance-threshold"
    else if event.payload.kind == "button" && is_pressed event.payload.value
    then some "button-pressed"
    else none

unfoldable pub should_run : Config → TelemetryEvent → Bool
unfolding find_trigger
should_run config event = is_some (find_trigger config event)

abbrev stage : String → String → Json
stage id label = object (
    object_of (
      ("id", some (string id))
      ∷ ("label", some (string label))
      ∷ ("status", some (string "completed"))
      ∷ []))

abbrev stages : Json
stages = array (
    items_of (
      stage "trigger-classification" "Classify telemetry trigger"
      ∷ stage "policy-gate" "Apply conditional AI invocation gate"
      ∷ stage "audit-result" "Record agent result audit"
      ∷ []))

unfoldable pub decision_payload : Config → TelemetryEvent → String → Json
unfolding object_of items_of
decision_payload config event trigger = object (
    object_of (
      ("mode", some (string config.mastra_telemetry_mode))
      ∷ ("trigger", some (string trigger))
      ∷ (
        "event",
        some (
            object (
              object_of (
                ("eventId", some (string event.event_id))
                ∷ ("deviceId", some (string event.device_id))
                ∷ ("sensorId", some (string event.sensor_id))
                ∷ ("kind", some (string event.payload.kind))
                ∷ ("value", some event.payload.value)
                ∷ ("unit", some (string event.payload.unit))
                ∷ ("measuredAt", some (string event.measured_at))
                ∷ []))),
      )
      ∷ (
        "workflow",
        some (
            object (
              object_of
                (("engine", some (string "mastra-boundary")) ∷ ("stages", some stages) ∷ []))),
      )
      ∷ ("llmInvoked", some (boolean false))
      ∷ []))

-- The id of the correlation is made only where the event has none.
abbrev pub correlation_or_uuid : Runtime → Option String → Task String
correlation_or_uuid rt none = next_uuid >>= λ n. pure (rt.uuid n)
correlation_or_uuid rt (some id) = pure id

unfoldable pub build_telemetry_decision_result :
    Config → Runtime → TelemetryEvent → String → Task AgentResult
unfolding decision_payload
build_telemetry_decision_result config rt event trigger = do
  created_at ← time
  id ← next_uuid
  correlation_id ← correlation_or_uuid rt event.correlation_id
  pure (record {
    result_id = rt.uuid id;
    kind = "impact-analysis";
    status = if config.mastra_telemetry_mode == "dry-run" then "skipped" else "succeeded";
    summary =
        "Telemetry event "
        <> (event.event_id
            <> (" matched "
                <> (trigger
                    <> ("; live LLM invocation is " <> (config.mastra_telemetry_mode <> ".")))));
    payload = decision_payload config event trigger;
    created_at = created_at;
    correlation_id = correlation_id;
  })

unfoldable pub agent_result_json : Runtime → AgentResult → Json
unfolding object_of
agent_result_json rt result = object (
    object_of (
      ("schemaVersion", some (string "agent-result.v1"))
      ∷ ("resultId", some (string result.result_id))
      ∷ ("kind", some (string result.kind))
      ∷ ("status", some (string result.status))
      ∷ ("summary", some (string result.summary))
      ∷ ("payload", some result.payload)
      ∷ ("createdAt", some (string (rt.iso result.created_at)))
      ∷ ("correlationId", some (string result.correlation_id))
      ∷ []))

unfoldable pub agent_message : Config → Runtime → AgentResult → Message
unfolding agent_result_json
agent_message config rt result = record {
  topic = config.agent_result_topic;
  key = result.correlation_id;
  value = agent_result_json rt result;
  headers =
      ("schemaVersion", "agent-result.v1")
      ∷ ("resultId", result.result_id)
      ∷ ("kind", result.kind)
      ∷ ("status", result.status)
      ∷ [];
}

abbrev pub connect_agent : Task (Unit {0})
connect_agent = do external; modify (λ w. record w { agent_connected = true })

abbrev pub connect_agent_unless : Bool → Task (Unit {0})
connect_agent_unless true = pure tt
connect_agent_unless false = connect_agent

-- The producer is connected on the first message.
unfoldable pub publish_agent_result : Config → Runtime → AgentResult → Task (Unit {0})
unfolding external agent_message
publish_agent_result config rt result = do
  connected ← gets (λ w. w.agent_connected)
  connect_agent_unless connected
  external
  modify (λ w. record w { sent = w.sent ++ agent_message config rt result ∷ [] })

unfoldable pub decision_audit : Runtime → AgentResult → AuditEvent
unfolding agent_result_json
decision_audit rt decision = record {
  audit_id = decision.result_id;
  type = "mastra.telemetry.decision";
  occurred_at = decision.created_at;
  payload = agent_result_json rt decision;
  correlation_id = some decision.correlation_id;
}

abbrev pub run_trigger : Config → Runtime → TelemetryEvent → Option String → Task (Unit {0})
run_trigger config rt event none = pure tt
run_trigger config rt event (some trigger) = do
  decision ← build_telemetry_decision_result config rt event trigger
  _ ← insert_audit_event (decision_audit rt decision)
  publish_agent_result config rt decision

unfoldable pub run_for_telemetry : Config → Runtime → TelemetryEvent → Task (Unit {0})
unfolding find_trigger build_telemetry_decision_result insert_audit_event decision_audit
    publish_agent_result
run_for_telemetry config rt event = run_trigger config rt event (find_trigger config event)
