-- ===== src/Tests/Data.antt =====
-- A small workspace: one temperature sensor, one led, and a rule that turns the led on above 30
-- degrees.
use semantic_layer_explore.Prelude.{true, false, none, some, [], ◌∷◌, ◌==◌, if◌then◌else◌}
use semantic_layer_explore.Js.Number.{Number, of_nat}
use semantic_layer_explore.Js.Json.{null, number, object, end}
use semantic_layer_explore.Js.Runtime.{Runtime}
use semantic_layer_explore.Worker.Config.{Config, RetentionConfig}
use semantic_layer_explore.Worker.Contracts.Telemetry.{TelemetryEvent}
use semantic_layer_explore.Worker.Contracts.CommandResult.{CommandResult}
use semantic_layer_explore.Worker.Rule.{RuleAction}
use semantic_layer_explore.Worker.Store.Tables.{Position, Database, DeviceCommand, RuleRow}
use semantic_layer_explore.Worker.Store.Task.{World}
use semantic_layer_explore.Worker.Consumer.{KafkaMessage}

abbrev pub runtime : Runtime
runtime = record {
  json_parse = λ s. if s == "{}" then some (object end) else none;
  syntax_message = λ s. "Unexpected token";
  date_parse = λ s. some 1_000;
  iso = λ t. "1970-01-01T00:00:01.000Z";
  trim = λ s. s;
  lower = λ s. s;
  render = λ v. "value";
  to_number = λ s. if s == "3" then of_nat 3 else Number.nan;
  decimal = λ n. "0";
  uuid = λ n. "u-1";
  timestamptz = λ s. if s == "" then none else some 1_000;
}

abbrev pub config : Config
config = record {
  telemetry_topic = "telemetry.raw";
  command_result_topic = "command.result";
  dead_letter_topic = "dead-letter";
  agent_result_topic = "agent.result";
  mastra_telemetry_mode = "dry-run";
  mastra_temperature_threshold = of_nat 31;
  mastra_distance_threshold = of_nat 10;
}

abbrev pub retention : RetentionConfig
retention = record {
  reading_retention_days = 1;
  audit_event_retention_days = 7;
  cleanup_interval_ms = 3_600_000;
  batch_size = 2;
}

abbrev pub action : RuleAction
action = record { device_id = "led-1"; command = "on"; value = none }

abbrev pub rule_row : RuleRow
rule_row = record {
  id = "r-1";
  name = "warm";
  condition = record {
    sensor_id = "t-1";
    operator = "gt";
    value = number (of_nat 30);
    unit = "celsius";
  };
  action = action;
  enabled = true;
  cooldown_seconds = 10;
  last_triggered_at = none;
  updated_at = 0;
}

abbrev pub event : TelemetryEvent
event = record {
  event_id = "e-1";
  device_id = "pi-1";
  sensor_id = "t-1";
  sequence = of_nat 7;
  measured_at = "1970-01-01";
  source = none;
  payload = record { kind = "temperature"; value = number (of_nat 32); unit = "celsius" };
  correlation_id = none;
  raw = null;
}

abbrev pub open_command : DeviceCommand
open_command = record {
  command_id = "c-1";
  device_id = "led-1";
  payload = null;
  status = "pending";
  requested_at = 0;
  completed_at = none;
  result = none;
  last_error = none;
  failure_code = none;
  publish_attempts = 0;
}

abbrev pub database : Database
database = record {
  dedup = "e-0" ∷ [];
  telemetry = [];
  workspace_events = [];
  audit_events = [];
  dead_letters = [];
  commands = open_command ∷ [];
  rules = rule_row ∷ [];
  sensors = record { id = "t-1"; type = "temperature"; unit = "celsius"; enabled = true } ∷ [];
  devices = record { id = "led-1"; type = "led"; state = end; enabled = true; updated_at = 0 } ∷ [];
  cleanup_started_at = none;
}

abbrev pub world : World
world = record {
  db = database;
  faults = none ∷ some "connection refused" ∷ [];
  now = 200_000_000;
  uuids = 0;
  sent = [];
  committed = [];
  dead_letter_connected = false;
  agent_connected = false;
  lock_taken = false;
}

abbrev pub position : Position
position = record { topic = "telemetry.raw"; partition = 0; offset = 4 }

abbrev pub message : KafkaMessage
message = record { offset = 4; key = some "t-1"; value = some "{}" }

abbrev pub command_result : CommandResult
command_result = record {
  command_id = "c-1";
  device_id = "led-1";
  success = true;
  state = some end;
  error = none;
  failure_code = none;
  publish_attempts = none;
  occurred_at = "1970-01-01";
  raw = end;
}
