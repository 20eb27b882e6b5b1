-- ===== src/Worker/Store/Tables.antt =====
-- The rows of infra/postgres/migrations, with the columns that the worker reads or writes. A table
-- is the list of its rows in the order of their `bigserial` ids; `rules` is in the order of
-- `created_at, id`, in which the worker reads it.
use semantic_layer_explore.Prelude.{
  ℕ, String, Bool, Option, List, ◌∷◌, [], ◌++◌, if◌then◌else◌, any,
}
use semantic_layer_explore.Js.Number.{Number}
use semantic_layer_explore.Js.Json.{Json, Fields}
use semantic_layer_explore.Worker.Rule.{RuleCondition, RuleAction}

pub record Position : Type 0 where
  pub topic : String
  pub partition : ℕ
  pub offset : ℕ

pub record TelemetryRow : Type 0 where
  pub event_id : String
  pub device_id : String
  pub sensor_id : String
  pub sequence : Number
  pub measured_at : ℕ
  pub source : String
  pub payload : Json
  pub position : Position
  pub processed_at : ℕ

pub record WorkspaceEvent : Type 0 where
  pub event_id : String
  pub type : String
  pub source_type : String
  pub source_id : String
  pub payload : Json
  pub occurred_at : ℕ

pub record AuditEvent : Type 0 where
  pub audit_id : String
  pub type : String
  pub occurred_at : ℕ
  pub payload : Json
  pub correlation_id : Option String

pub record DeadLetter : Type 0 where
  pub dead_letter_id : String
  pub source : Position
  pub key : Option String
  pub reason : String
  pub error_message : String
  pub payload : Option String
  pub payload_json : Option Json
  pub failed_at : ℕ

pub record DeviceCommand : Type 0 where
  pub command_id : String
  pub device_id : String
  pub payload : Json
  pub status : String
  pub requested_at : ℕ
  pub completed_at : Option ℕ
  pub result : Option Json
  pub last_error : Option String
  pub failure_code : Option String
  pub publish_attempts : ℕ

pub record RuleRow : Type 0 where
  pub id : String
  pub name : String
  pub condition : RuleCondition
  pub action : RuleAction
  pub enabled : Bool
  pub cooldown_seconds : ℕ
  pub last_triggered_at : Option ℕ
  pub updated_at : ℕ

pub record SensorRow : Type 0 where
  pub id : String
  pub type : String
  pub unit : String
  pub enabled : Bool

pub record DeviceRow : Type 0 where
  pub id : String
  pub type : String
  pub state : Fields
  pub enabled : Bool
  pub updated_at : ℕ

pub record Database : Type 0 where
  -- the keys of `telemetry_event_dedup`
  pub dedup : List String
  pub telemetry : List TelemetryRow
  pub workspace_events : List WorkspaceEvent
  pub audit_events : List AuditEvent
  pub dead_letters : List DeadLetter
  pub commands : List DeviceCommand
  pub rules : List RuleRow
  pub sensors : List SensorRow
  pub devices : List DeviceRow
  -- `last_started_at` of the row `postgres-retention`
  pub cleanup_started_at : Option ℕ

-- `insert … on conflict do nothing`: the rows after it, where `clash` finds the row in the way.
unfoldable pub insert_new {ℓ} : {Row : Type ℓ} → (Row → Bool) → Row → List Row → List Row
insert_new clash row rows = if any clash rows then rows else rows ++ row ∷ []
