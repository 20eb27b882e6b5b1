-- ===== src/Worker/Writes.antt =====
-- The writes of the worker as a step relation on the database: every statement of
-- worker/src/persistence/postgres-service.ts that changes a table is one constructor. What each
-- write keeps, every message and every cleanup keeps, whichever calls fail (Writes/Calls).
pub mod Kept
pub mod Calls
pub mod Consumer
use semantic_layer_explore.Prelude.{ℕ, String, ◌≡◌, Bool, false, true, Option, some, List}
use semantic_layer_explore.Js.Json.{Fields}
use semantic_layer_explore.Worker.Config.{RetentionConfig}
use semantic_layer_explore.Worker.Contracts.CommandResult.{CommandResult}
use semantic_layer_explore.Worker.Store.Tables.{
  Database, TelemetryRow, WorkspaceEvent, AuditEvent, DeadLetter, DeviceCommand,
}
use semantic_layer_explore.Worker.Store.Task.{World, Task, Message}
use semantic_layer_explore.Worker.Store.Transaction.{Ending, transaction}
use semantic_layer_explore.Worker.Store.Keeps.{Keeps, IsStable}
use semantic_layer_explore.Worker.Postgres.Telemetry.{mark_seen, add_telemetry, add_workspace_event}
use semantic_layer_explore.Worker.Postgres.Records.{
  has_dead_letter, has_dead_letter_id, append_dead_letter, add_audit,
}
use semantic_layer_explore.Worker.Postgres.Rules.{touch_rule, add_command}
use semantic_layer_explore.Worker.Postgres.Commands.{set_state, finish_command}
use semantic_layer_explore.Worker.Postgres.Retention.{
  purge_telemetry, purge_readings, purge_audit, claim,
}

pub data Write : Database → Database → Type 0 where
  seen : (id : String) (db : Database) → Write db (mark_seen id db)
  telemetry : (row : TelemetryRow) (db : Database) → Write db (add_telemetry row db)
  workspace : (e : WorkspaceEvent) (db : Database) → Write db (add_workspace_event e db)
  audit : (row : AuditEvent) (db : Database) → Write db (add_audit row db)
  dead_letter :
      (row : DeadLetter) (db : Database)
      → has_dead_letter row.source db ≡ false
      → has_dead_letter_id row.dead_letter_id db ≡ false
      → Write db (append_dead_letter row db)
  command : (c : DeviceCommand) (db : Database) → Write db (add_command c db)
  touch : (now : ℕ) (id : String) (db : Database) → Write db (touch_rule now id db)
  state : (id : String) (fs : Fields) (at : ℕ) (db : Database) → Write db (set_state id fs at db)
  finish : (r : CommandResult) (at : ℕ) (db : Database) → Write db (finish_command r at db)
  old_telemetry :
      (c : RetentionConfig) (now : ℕ) (db : Database) → Write db (purge_telemetry c now db)
  old_readings :
      (c : RetentionConfig) (now : ℕ) (db : Database) → Write db (purge_readings c now db)
  old_audit : (c : RetentionConfig) (now : ℕ) (db : Database) → Write db (purge_audit c now db)
  start : (now : ℕ) (db : Database) → Write db (record db { cleanup_started_at = some now })

-- A property of the world that every call of the worker keeps, if it has these closures.
pub record IsKept (P : World → Type 0) : Type 1 where
  pub stable : IsStable P
  pub write : (w : World) (db : Database) → Write w.db db → P w → P (record w { db = db })
  pub send : (w : World) (messages : List Message) → P w → P (record w { sent = messages })
  pub connect_agent : (w : World) → P w → P (record w { agent_connected = true })
  pub connect_dead_letter : (w : World) → P w → P (record w { dead_letter_connected = true })
  pub in_transaction :
      (A : Type 0) (body : Task (Ending A)) → Keeps P body → Keeps P (transaction body)
