-- ===== src/Worker/Postgres/Rules.antt =====
-- `applyDeterministicRules` of worker/src/persistence/postgres-service.ts
pub mod Fire
pub mod Rounds
pub mod Laws
use semantic_layer_explore.Prelude.{
  ℕ, zero, suc, ◌+◌, ◌*◌, String, Bool, true, false, ◌&&◌, ◌||◌, not, Option, none, some, List, [],
  ◌∷◌, ◌++◌, ◌==◌, any, find, filter, map, ltb, or_else, if◌then◌else◌,
}
use semantic_layer_explore.Js.Number.{Number}
use semantic_layer_explore.Js.Json.{Json, string, number, object, object_of}
use semantic_layer_explore.Js.Text.{◌<>◌}
use semantic_layer_explore.Js.Runtime.{Runtime}
use semantic_layer_explore.Js.Result.{Result, ok, threw}
use semantic_layer_explore.Worker.Contracts.Telemetry.{TelemetryEvent}
use semantic_layer_explore.Worker.Rule.{RuleCondition, RuleAction, matches_condition, apply_action}
use semantic_layer_explore.Worker.Store.Tables.{
  Database, WorkspaceEvent, AuditEvent, DeviceCommand, RuleRow, SensorRow, DeviceRow, insert_new,
}
use semantic_layer_explore.Worker.Store.Task.{
  World, Task, ◌>>=◌, ◌>>◌, pure, throw, lift, time, query, select, update,
}
use semantic_layer_explore.Worker.Store.Transaction.{Ending, commit, transaction}
use semantic_layer_explore.Worker.Postgres.Telemetry.{reading_json, add_workspace_event}
use semantic_layer_explore.Worker.Postgres.Records.{has_audit, add_audit}

pub record RuleMatch : Type 0 where
  pub rule_id : String
  pub device_id : String
  pub command : String

abbrev number_field : Option Number → Option Json
number_field none = none
number_field (some n) = some (number n)

unfoldable pub condition_json : RuleCondition → Json
unfolding object_of
condition_json c = object (
    object_of (
      ("sensorId", some (string c.sensor_id))
      ∷ ("operator", some (string c.operator))
      ∷ ("value", some c.value)
      ∷ ("unit", some (string c.unit))
      ∷ []))

unfoldable pub action_json : RuleAction → Json
unfolding object_of
action_json a = object (
    object_of (
      ("deviceId", some (string a.device_id))
      ∷ ("command", some (string a.command))
      ∷ ("value", number_field a.value)
      ∷ []))

-- The ids that are made for a pair of an event and a rule.
unfoldable pub match_id : TelemetryEvent → RuleRow → String
match_id event row = "rule-match:" <> (event.event_id <> (":" <> row.id))

unfoldable pub rule_event_id : TelemetryEvent → RuleRow → String
rule_event_id event row = "rule-event:" <> (event.event_id <> (":" <> row.id))

unfoldable pub command_event_id : TelemetryEvent → RuleRow → String
command_event_id event row = "device-command:" <> (event.event_id <> (":" <> row.id))

unfoldable pub correlation : TelemetryEvent → String
correlation event = or_else event.correlation_id event.event_id

-- `!(rowCount === 1 && type === kind && unit === unit)`, negated
unfoldable pub is_compatible : TelemetryEvent → Option SensorRow → Bool
is_compatible event none = false
is_compatible event (some sensor) =
    sensor.type == event.payload.kind && sensor.unit == event.payload.unit

abbrev pub enabled_sensor : String → Database → Option SensorRow
enabled_sensor id db = find (λ s. s.id == id && s.enabled) db.sensors

abbrev pub enabled_device : String → Database → Option DeviceRow
enabled_device id db = find (λ d. d.id == id && d.enabled) db.devices

-- The rules that can apply to a reading of the sensor.
abbrev pub is_candidate : TelemetryEvent → RuleRow → Bool
is_candidate event r = r.enabled && r.condition.sensor_id == event.sensor_id

abbrev pub candidates : TelemetryEvent → Database → List RuleRow
candidates event db = filter (is_candidate event) db.rules

-- `elapsed < cooldown_seconds * 1000`, where `elapsed` may be negative
unfoldable pub is_cooling : ℕ → RuleRow → Bool
is_cooling now row = elim row.last_triggered_at [
  | none ↦ false
  | some last ↦ ltb now (last + row.cooldown_seconds * 1000)
]

unfoldable pub touch_rule : ℕ → String → Database → Database
touch_rule now id db = record db {
  rules =
      map
        (λ r. if r.id == id then record r { last_triggered_at = some now; updated_at = now } else r)
        db.rules;
}

unfoldable pub add_command : DeviceCommand → Database → Database
unfolding insert_new
add_command c db = record db {
  commands = insert_new (λ r. r.command_id == c.command_id) c db.commands;
}

module _ (rt : Runtime) (event : TelemetryEvent) (now : ℕ) (row : RuleRow) where
  unfoldable pub command_json : Json
  unfolding object_of correlation command_event_id rule_event_id
  command_json = object (
      object_of (
        ("schemaVersion", some (string "command.v1"))
        ∷ ("commandId", some (string (command_event_id event row)))
        ∷ ("deviceId", some (string row.action.device_id))
        ∷ ("command", some (string row.action.command))
        ∷ ("value", number_field row.action.value)
        ∷ ("issuedBy", some (string "rule-engine"))
        ∷ ("issuedAt", some (string (rt.iso now)))
        ∷ ("correlationId", some (string (correlation event)))
        ∷ (
          "causation",
          some (
              object (
                object_of (
                  ("correlationId", some (string (correlation event)))
                  ∷ ("ruleId", some (string row.id))
                  ∷ ("ruleEventId", some (string (rule_event_id event row)))
                  ∷ ("triggerEventId", some (string event.event_id))
                  ∷ []))),
        )
        ∷ []))

  unfoldable pub matched_event : WorkspaceEvent
  unfolding object_of condition_json action_json reading_json correlation rule_event_id
  matched_event = record {
    event_id = rule_event_id event row;
    type = "rule.matched";
    source_type = "rule";
    source_id = row.id;
    payload = object (
        object_of (
          ("ruleId", some (string row.id))
          ∷ ("condition", some (condition_json row.condition))
          ∷ ("action", some (action_json row.action))
          ∷ ("reading", some (reading_json event))
          ∷ (
            "causation",
            some (
                object (
                  object_of (
                    ("correlationId", some (string (correlation event)))
                    ∷ ("triggerEventId", some (string event.event_id))
                    ∷ []))),
          )
          ∷ []));
    occurred_at = now;
  }

  unfoldable pub pending_command : DeviceCommand
  unfolding command_json command_event_id
  pending_command = record {
    command_id = command_event_id event row;
    device_id = row.action.device_id;
    payload = command_json;
    status = "pending";
    requested_at = now;
    completed_at = none;
    result = none;
    last_error = none;
    failure_code = none;
    publish_attempts = 0;
  }

  unfoldable pub pending_event : WorkspaceEvent
  unfolding command_json object_of command_event_id
  pending_event = record {
    event_id = command_event_id event row <> ":pending";
    type = "device.command.pending";
    source_type = "device";
    source_id = row.action.device_id;
    payload =
        object
          (object_of (("command", some command_json) ∷ ("status", some (string "pending")) ∷ []));
    occurred_at = now;
  }

  unfoldable pub match_audit : AuditEvent
  unfolding object_of condition_json action_json match_id rule_event_id command_event_id correlation
  match_audit = record {
    audit_id = match_id event row;
    type = "rule.matched";
    occurred_at = now;
    payload = object (
        object_of (
          ("ruleId", some (string row.id))
          ∷ ("ruleName", some (string row.name))
          ∷ ("condition", some (condition_json row.condition))
          ∷ ("action", some (action_json row.action))
          ∷ ("event", some event.raw)
          ∷ ("ruleEventId", some (string (rule_event_id event row)))
          ∷ ("commandEventId", some (string (command_event_id event row)))
          ∷ []));
    correlation_id = some (correlation event);
  }

  unfoldable pub rule_match : RuleMatch
  rule_match = record {
    rule_id = row.id;
    device_id = row.action.device_id;
    command = row.action.command;
  }

  -- The `throw` for a device that is missing or disabled.
  unfoldable pub available : Option DeviceRow → Result DeviceRow
  available none =
      threw ("Rule " <> (row.id <> (" targets an unavailable device: " <> row.action.device_id)))
  available (some device) = ok device

  -- The statements of the loop behind its tests. The new state of the device is computed for its
  -- errors alone: the device changes when it acknowledges the command.
  unfoldable pub fire : Task (List RuleMatch)
  unfolding select update available apply_action touch_rule matched_event pending_command
      pending_event match_audit rule_match
  fire = do
    found ← select (enabled_device row.action.device_id)
    device ← lift (available found)
    state ← lift (apply_action device.type device.state row.action (rt.iso now))
    update (touch_rule now row.id)
    update (add_workspace_event matched_event)
    update (add_command pending_command)
    update (add_workspace_event pending_event)
    update (add_audit match_audit)
    pure (rule_match ∷ [])

  -- One round of the loop over the rules.
  unfoldable pub apply_rule : Task (List RuleMatch)
  unfolding select fire matches_condition is_cooling match_id
  apply_rule = do
    applied ← select (has_audit (match_id event row))
    if applied || (not (matches_condition row.condition event) || is_cooling now row)
        then pure []
        else fire

unfoldable pub apply_rules : Runtime → TelemetryEvent → ℕ → List RuleRow → Task (List RuleMatch)
unfolding apply_rule
apply_rules rt event now [] = pure []
apply_rules rt event now (row ∷ rows) = do
  first ← apply_rule rt event now row
  others ← apply_rules rt event now rows
  pure (first ++ others)

unfoldable pub check_sensor : TelemetryEvent → Option SensorRow → Result (Unit {0})
unfolding is_compatible
check_sensor event sensor =
    if is_compatible event sensor
    then ok tt
    else threw ("Unknown or incompatible sensor: " <> event.sensor_id)

unfoldable pub apply_deterministic_rules : Runtime → TelemetryEvent → Task (List RuleMatch)
unfolding transaction select check_sensor apply_rules
apply_deterministic_rules rt event = transaction (do
  sensor ← select (enabled_sensor event.sensor_id)
  lift (check_sensor event sensor)
  rules ← select (candidates event)
  now ← time
  matched ← apply_rules rt event now rules
  pure (commit matched))
