-- ===== src/Worker/Config.antt =====
-- worker/src/config.ts and worker/src/retention/retention-config.ts. An environment is a function
-- from names to the values that are set.
use semantic_layer_explore.Prelude.{ℕ, String, ◌&&◌, Option, none, some, or_else, if◌then◌else◌}
use semantic_layer_explore.Js.Number.{Number, is_safe_integer, less, of_nat, to_nat}
use semantic_layer_explore.Js.Runtime.{Runtime, Environment}

pub record RetentionConfig : Type 0 where
  pub reading_retention_days : ℕ
  pub audit_event_retention_days : ℕ
  pub cleanup_interval_ms : ℕ
  pub batch_size : ℕ

-- `Number(value)` of a value that may be undefined
abbrev number_from : Runtime → Option String → Number
number_from rt none = Number.nan
number_from rt (some s) = rt.to_number s

unfoldable pub positive_integer : Runtime → Option String → ℕ → ℕ
unfolding is_safe_integer less of_nat to_nat
positive_integer rt value fallback =
    let parsed = number_from rt value in
    if is_safe_integer parsed && less (of_nat 0) parsed then to_nat parsed else fallback

unfoldable pub retention_config_from_env : Runtime → Environment → RetentionConfig
unfolding positive_integer
retention_config_from_env rt env = record {
  reading_retention_days = positive_integer rt (env "READING_RETENTION_DAYS") 1;
  audit_event_retention_days = positive_integer rt (env "AUDIT_EVENT_RETENTION_DAYS") 7;
  cleanup_interval_ms = positive_integer rt (env "RETENTION_CLEANUP_INTERVAL_MS") 3_600_000;
  batch_size = positive_integer rt (env "RETENTION_BATCH_SIZE") 5_000;
}

-- The entries of `config` that the modelled code reads.
pub record Config : Type 0 where
  pub telemetry_topic : String
  pub command_result_topic : String
  pub dead_letter_topic : String
  pub agent_result_topic : String
  pub mastra_telemetry_mode : String
  pub mastra_temperature_threshold : Number
  pub mastra_distance_threshold : Number

unfoldable pub config_from_env : Runtime → Environment → Config
config_from_env rt env = record {
  telemetry_topic = or_else (env "KAFKA_TELEMETRY_TOPIC") "telemetry.raw";
  command_result_topic = or_else (env "KAFKA_COMMAND_RESULT_TOPIC") "command.result";
  dead_letter_topic = or_else (env "KAFKA_DEAD_LETTER_TOPIC") "dead-letter";
  agent_result_topic = or_else (env "KAFKA_AGENT_RESULT_TOPIC") "agent.result";
  mastra_telemetry_mode = or_else (env "MASTRA_TELEMETRY_MODE") "dry-run";
  mastra_temperature_threshold = rt.to_number (or_else (env "MASTRA_TEMPERATURE_THRESHOLD") "31.5");
  mastra_distance_threshold = rt.to_number (or_else (env "MASTRA_DISTANCE_THRESHOLD") "10");
}
