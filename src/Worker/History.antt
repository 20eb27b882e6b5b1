-- ===== src/Worker/History.antt =====
-- The runs of the worker process (worker/src/main.ts): messages that arrive, with redeliveries,
-- cleanups of the retention service, and what happens around the worker meanwhile.
pub mod Invariant
pub mod Once
use semantic_layer_explore.Prelude.{ℕ, String, Bool, Option, List, ◌≡◌}
use semantic_layer_explore.Js.Runtime.{Runtime}
use semantic_layer_explore.Js.Result.{Result}
use semantic_layer_explore.Worker.Config.{Config, RetentionConfig}
use semantic_layer_explore.Worker.Store.Tables.{RuleRow, SensorRow, DeviceRow}
use semantic_layer_explore.Worker.Store.Task.{World}
use semantic_layer_explore.Worker.Postgres.Retention.{CleanupResult, cleanup_retention}
use semantic_layer_explore.Worker.Consumer.{KafkaMessage, each_message}

-- One message, one cleanup, or a change from outside: the clock, the calls that will fail, the lock
-- of another session, and the tables that the API writes.
pub data Step (config : Config) (rt : Runtime) : World → World → Type 0 where
  handled :
      (topic : String) (partition : ℕ) (message : KafkaMessage) (r : Result (Unit {0}))
      (w v : World)
      → each_message config rt topic partition message w ≡ (r, v)
      → Step config rt w v
  cleaned :
      (c : RetentionConfig) (r : Result CleanupResult) (w v : World)
      → cleanup_retention c w ≡ (r, v)
      → Step config rt w v
  outside :
      (now : ℕ) (faults : List (Option String)) (taken : Bool) (w : World)
      → Step config rt w (record w { now = now; faults = faults; lock_taken = taken })
  configured :
      (rules : List RuleRow) (sensors : List SensorRow) (devices : List DeviceRow) (w : World)
      → Step config rt w
          (record w { db = record w.db { rules = rules; sensors = sensors; devices = devices } })

pub data Reach (config : Config) (rt : Runtime) : World → World → Type 0 where
  here : (w : World) → Reach config rt w w
  then_step : (u v w : World) → Reach config rt u v → Step config rt v w → Reach config rt u w
