-- ===== src/Worker/History/Invariant.antt =====
-- What every run of the worker keeps, where every single write keeps it.
use semantic_layer_explore.Prelude.{ℕ, String, List}
use mathlib.Core.Path.{subst}
use semantic_layer_explore.Js.Runtime.{Runtime}
use semantic_layer_explore.Js.Result.{Result}
use semantic_layer_explore.Worker.Config.{Config}
use semantic_layer_explore.Worker.Store.Tables.{Database, RuleRow, SensorRow, DeviceRow}
use semantic_layer_explore.Worker.Store.Task.{World, modify}
use semantic_layer_explore.Worker.Store.Keeps.{Keeps}
use semantic_layer_explore.Worker.Store.Frame.{keeps_rules, OfDb}
use semantic_layer_explore.Worker.Postgres.Retention.{CleanupResult}
use semantic_layer_explore.Worker.Consumer.{KafkaMessage, commit_offset, each_message}
use semantic_layer_explore.Worker.Writes.{Write, IsKept}
use semantic_layer_explore.Worker.Writes.Kept.{OfDb-IsKept}
use semantic_layer_explore.Worker.Writes.Calls.{cleanup_retention-Keeps}
use semantic_layer_explore.Worker.Writes.Consumer.{process-Keeps, record_dead_letter-Keeps}
use semantic_layer_explore.Worker.History.{
  Step, handled, cleaned, outside, configured, Reach, here, then_step,
}

-- A property of the database that every write keeps, and that does not read what the API writes, is
-- kept by every run.
module _ (P : Database → Type 0) (written : (a b : Database) → Write a b → P a → P b)
    (free : (db : Database) (rules : List RuleRow) (sensors : List SensorRow)
        (devices : List DeviceRow)
      → P db
      → P (record db { rules = rules; sensors = sensors; devices = devices }))
    (config : Config) (rt : Runtime) where
  kept : IsKept (OfDb P)
  kept = OfDb-IsKept P written

  modify-Keeps :
      (f : World → World) → ((w : World) → P w.db → P (f w).db) → Keeps (OfDb P) (modify f)
  unfolding modify
  modify-Keeps f k = record { at = k }

  each_message-Keeps :
      (topic : String) (partition : ℕ) (message : KafkaMessage)
      → Keeps (OfDb P) (each_message config rt topic partition message)
  unfolding each_message commit_offset
  each_message-Keeps topic partition message =
      search (keeps_rules, kept, process-Keeps, record_dead_letter-Keeps, kept.stable, modify-Keeps)
        depth 12

  Step-keeps : {w v : World} → Step config rt w v → P w.db → P v.db
  Step-keeps (handled topic partition message r w v e) h =
      subst (λ (q : Result Unit × World). P q.1.db) e
        ((each_message-Keeps topic partition message).at w h)
  Step-keeps (cleaned c r w v e) h =
      subst (λ (q : Result CleanupResult × World). P q.1.db) e
        ((cleanup_retention-Keeps kept c).at w h)
  Step-keeps (outside now faults taken w) h = h
  Step-keeps (configured rules sensors devices w) h = free w.db rules sensors devices h

  pub Reach-keeps : {w v : World} → Reach config rt w v → P w.db → P v.db
  Reach-keeps (here w) h = h
  Reach-keeps (then_step u v w r s) h = Step-keeps s (Reach-keeps r h)
