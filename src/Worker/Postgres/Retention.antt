-- ===== src/Worker/Postgres/Retention.antt =====
-- `cleanupRetention` of worker/src/persistence/postgres-service.ts. No row is locked by others, so
-- `skip locked` skips none; the days of `make_interval` are of 24 hours.
pub mod Purge
pub mod Laws
use semantic_layer_explore.Prelude.{
  ℕ, zero, suc, ◌+◌, ◌-◌, ◌*◌, String, Bool, true, false, ◌&&◌, not, Option, none, some, List, [],
  ◌∷◌, ◌==◌, ltb, leb, if◌then◌else◌, length, min,
}
use semantic_layer_explore.Js.Result.{ok, threw}
use semantic_layer_explore.Worker.Config.{RetentionConfig}
use semantic_layer_explore.Worker.Store.Tables.{Database, TelemetryRow, WorkspaceEvent, AuditEvent}
use semantic_layer_explore.Worker.Store.Task.{
  World, Task, ◌>>=◌, ◌>>◌, pure, throw, time, gets, external, query,
}
use semantic_layer_explore.Worker.Store.Transaction.{Ending, commit, rollback, transaction}

pub record CleanupResult : Type 0 where
  pub acquired : Bool
  pub telemetry_deleted : ℕ
  pub sensor_readings_deleted : ℕ
  pub audit_deleted : ℕ

-- `delete … where id in (select id … where <expired> order by <time>, id limit $2)`
module _ {ℓ} {Row : Type ℓ} (at : Row → ℕ) (expired : Row → Bool) where
  abbrev pub earlier : ℕ → Option ℕ → ℕ
  earlier t none = t
  earlier t (some u) = if leb t u then t else u

  -- The least time of an expired row.
  unfoldable pub oldest : List Row → Option ℕ
  oldest [] = none
  oldest (r ∷ rs) = let rest = oldest rs in if expired r then some (earlier (at r) rest) else rest

  -- The rows without the first expired one of that time.
  unfoldable pub remove_at : ℕ → List Row → List Row
  remove_at t [] = []
  remove_at t (r ∷ rs) =
      let rest = remove_at t rs in if expired r && leb (at r) t then rs else r ∷ rest

  abbrev pub remove_oldest : Option ℕ → List Row → List Row
  remove_oldest none rs = rs
  remove_oldest (some t) rs = remove_at t rs

  -- At most `limit` rows go, the oldest first.
  unfoldable pub purge : ℕ → List Row → List Row
  unfolding oldest remove_at
  purge zero rs = rs
  purge (suc limit) rs = purge limit (remove_oldest (oldest rs) rs)

abbrev pub day : ℕ
day = 86_400_000

-- `t < now() - make_interval(days => n)`
unfoldable pub is_older : ℕ → ℕ → ℕ → Bool
is_older now days t = ltb (t + days * day) now

unfoldable pub is_due : ℕ → ℕ → Option ℕ → Bool
is_due now interval none = true
is_due now interval (some started) = leb (started + interval) now

abbrev pub telemetry_expired : ℕ → ℕ → TelemetryRow → Bool
telemetry_expired now days r = is_older now days r.processed_at

abbrev pub reading_expired : ℕ → ℕ → WorkspaceEvent → Bool
reading_expired now days r = r.type == "sensor.reading" && is_older now days r.occurred_at

abbrev pub audit_expired : ℕ → ℕ → AuditEvent → Bool
audit_expired now days r = not (r.type == "rule.matched") && is_older now days r.occurred_at

unfoldable pub purge_telemetry : RetentionConfig → ℕ → Database → Database
unfolding purge is_older
purge_telemetry c now db = record db {
  telemetry =
      purge (λ r. r.processed_at) (telemetry_expired now c.reading_retention_days) c.batch_size
        db.telemetry;
}

unfoldable pub purge_readings : RetentionConfig → ℕ → Database → Database
unfolding purge is_older
purge_readings c now db = record db {
  workspace_events =
      purge (λ r. r.occurred_at) (reading_expired now c.reading_retention_days) c.batch_size
        db.workspace_events;
}

unfoldable pub purge_audit : RetentionConfig → ℕ → Database → Database
unfolding purge is_older
purge_audit c now db = record db {
  audit_events =
      purge (λ r. r.occurred_at) (audit_expired now c.audit_event_retention_days) c.batch_size
        db.audit_events;
}

abbrev skipped : CleanupResult
skipped = record {
  acquired = false;
  telemetry_deleted = 0;
  sensor_readings_deleted = 0;
  audit_deleted = 0;
}

-- Rows of the first list that the second one lacks, where the second is what a `delete` left.
abbrev pub row_count {ℓ} : {Row : Type ℓ} → List Row → List Row → ℕ
row_count before left = length before - length left

-- Behind the claim of the schedule.
unfoldable pub purge_all : RetentionConfig → ℕ → Task (Ending CleanupResult)
unfolding purge_telemetry purge_readings purge_audit query
purge_all c now = do
  telemetry ←
      query
        (λ db. let left = purge_telemetry c now db in (row_count db.telemetry left.telemetry, left))
  readings ← query (λ db.
      let left = purge_readings c now db in
      (row_count db.workspace_events left.workspace_events, left))
  audit ←
      query (λ db.
        let left = purge_audit c now db in (row_count db.audit_events left.audit_events, left))
  pure (
      commit (record {
        acquired = true;
        telemetry_deleted = telemetry;
        sensor_readings_deleted = readings;
        audit_deleted = audit;
      }))

abbrev pub claim : RetentionConfig → ℕ → Database → Bool × Database
claim c now db =
    if is_due now c.cleanup_interval_ms db.cleanup_started_at
    then (true, record db { cleanup_started_at = some now })
    else (false, db)

unfoldable pub cleanup_retention : RetentionConfig → Task CleanupResult
unfolding transaction purge_all external query is_due
cleanup_retention c = transaction (do
  external
  taken ← gets (λ w. w.lock_taken)
  if taken then pure (rollback skipped) else do
    now ← time
    scheduled ← query (claim c now)
    if scheduled then purge_all c now else pure (rollback skipped))
