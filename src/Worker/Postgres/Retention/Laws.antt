-- ===== src/Worker/Postgres/Retention/Laws.antt =====
-- What `cleanupRetention` comes to, whichever calls fail.
use semantic_layer_explore.Prelude.{
  ℕ, ◌+◌, ◌≤◌, ◌≡◌, ◌⊎◌, inl, inr, refl, Bool, true, false, Option, some, List, String, arith,
  length, if◌then◌else◌,
}
use semantic_layer_explore.Js.Result.{Result, ok, threw}
use semantic_layer_explore.Worker.Config.{RetentionConfig}
use semantic_layer_explore.Worker.Store.Tables.{Database}
use semantic_layer_explore.Worker.Store.Task.{
  World, Task, ◌>>=◌, ◌>>◌, pure, gets, time, external, query,
}
use semantic_layer_explore.Worker.Store.Post.{if-post, time-post}
use semantic_layer_explore.Worker.Store.Transaction.{Ending, rollback}
use semantic_layer_explore.Worker.Store.Transaction.Outcome.{with_faults, external-bind, query-bind}
use semantic_layer_explore.Worker.Store.Transaction.Post.{Inside, transaction-post}
use semantic_layer_explore.Worker.Postgres.Retention.{
  CleanupResult, purge, purge_telemetry, purge_readings, purge_audit, is_due, telemetry_expired,
  reading_expired, audit_expired, skipped, row_count, claim, purge_all, cleanup_retention,
}
use semantic_layer_explore.Worker.Postgres.Retention.Purge.{purge-exact}

module _ (c : RetentionConfig) (now : ℕ) (taken : Bool) where
  abbrev started : Database → Database
  started a = record a { cleanup_started_at = some now }

  -- The database behind the four queries of a cleanup.
  abbrev pub cleaned : Database → Database
  cleaned a = purge_audit c now (purge_readings c now (purge_telemetry c now (started a)))

  -- Each count is that of the rows which one of the deletes took, and is within the batch.
  abbrev Counted : ℕ → ℕ → ℕ → Type 0
  Counted deleted before left = (deleted + left ≡ before) × (deleted ≤ c.batch_size)

  -- Both ends of a cleanup that returns.
  abbrev pub Cleaned : Database → Result CleanupResult → Database → Type 0
  Cleaned a (ok r) b =
      ((r.acquired ≡ true)
        × (taken ≡ false)
        × (is_due now c.cleanup_interval_ms a.cleanup_started_at ≡ true)
        × (b ≡ cleaned a)
        × Counted r.telemetry_deleted (length a.telemetry) (length b.telemetry)
        × Counted r.sensor_readings_deleted (length a.workspace_events) (length b.workspace_events)
        × Counted r.audit_deleted (length a.audit_events) (length b.audit_events))
      ⊎ ((r ≡ skipped)
          × ((taken ≡ true) ⊎ (is_due now c.cleanup_interval_ms a.cleanup_started_at ≡ false))
          × (b ≡ a))
  Cleaned a (threw e) b = b ≡ a

  counted :
      {Row : Type 0} (at : Row → ℕ) (expired : Row → Bool) (rs : List Row)
      → Counted
          (row_count rs (purge at expired c.batch_size rs))
          (length rs)
          (length (purge at expired c.batch_size rs))
  counted at expired rs =
      let exact = (purge-exact at expired c.batch_size rs).0 in (omega arith, omega arith)

  module _ (a : Database) where
    abbrev P : Result (Ending CleanupResult) × World → Type 0
    P = Inside (Cleaned a) a

    abbrev counts : Database → CleanupResult
    counts b = record {
      acquired = true;
      telemetry_deleted = row_count b.telemetry (purge_telemetry c now b).telemetry;
      sensor_readings_deleted =
          row_count b.workspace_events
            (purge_readings c now (purge_telemetry c now b)).workspace_events;
      audit_deleted =
          row_count b.audit_events
            (purge_audit c now (purge_readings c now (purge_telemetry c now b))).audit_events;
    }

    counts-Cleaned :
        taken ≡ false
        → is_due now c.cleanup_interval_ms a.cleanup_started_at ≡ true
        → Cleaned a (ok (counts (started a))) (cleaned a)
    unfolding purge_telemetry purge_readings purge_audit
    counts-Cleaned free due = inl (
      refl,
      free,
      due,
      refl,
      counted (λ r. r.processed_at) (telemetry_expired now c.reading_retention_days) a.telemetry,
      counted (λ r. r.occurred_at) (reading_expired now c.reading_retention_days)
          a.workspace_events,
      counted (λ r. r.occurred_at) (audit_expired now c.audit_event_retention_days) a.audit_events,
    )

    purge_all-Cleaned :
        (w : World)
        → w.db ≡ started a
        → taken ≡ false
        → is_due now c.cleanup_interval_ms a.cleanup_started_at ≡ true
        → P (purge_all c now w)
    unfolding purge_all pure purge_telemetry purge_readings
    purge_all-Cleaned w same free due =
        query-bind P
          (λ db.
            (row_count db.telemetry (purge_telemetry c now db).telemetry, purge_telemetry c now db))
          _ w
          (λ fs.
            query-bind P
              (λ db. (
                row_count db.workspace_events (purge_readings c now db).workspace_events,
                purge_readings c now db,
              ))
              _ (record w { db = purge_telemetry c now w.db; faults = fs })
              (λ gs.
                query-bind P
                  (λ db. (
                    row_count db.audit_events (purge_audit c now db).audit_events,
                    purge_audit c now db,
                  ))
                  _
                  (record w { db = purge_readings c now (purge_telemetry c now w.db); faults = gs })
                  (λ hs. rw same (counts-Cleaned free due)) (λ hs e. tt))
              (λ gs e. tt))
          (λ fs e. tt)

module _ (c : RetentionConfig) (w : World) where
  abbrev claimed : ℕ → Bool → Task (Ending CleanupResult)
  claimed now scheduled = if scheduled then purge_all c now else pure (rollback skipped)

  abbrev locked : Bool → Task (Ending CleanupResult)
  locked taken =
      if taken
      then pure (rollback skipped)
      else do now ← time; scheduled ← query (claim c now); claimed now scheduled

  abbrev body : Task (Ending CleanupResult)
  body = do external; taken ← gets (λ w. w.lock_taken); locked taken

  abbrev PBody : Result (Ending CleanupResult) × World → Type 0
  PBody = P c w.now w.lock_taken w.db

  claimed-Cleaned :
      (v : World) (due : Bool)
      → w.lock_taken ≡ false
      → is_due w.now c.cleanup_interval_ms w.db.cleanup_started_at ≡ due
      → v.db ≡ (if due then record w.db { cleanup_started_at = some w.now } else w.db)
      → PBody (claimed w.now due v)
  unfolding pure
  claimed-Cleaned v true free due same = purge_all-Cleaned c w.now w.lock_taken w.db v same free due
  claimed-Cleaned v false free early same = inr (refl, inr early, refl)

  scheduled_as :
      (fs : List (Option String)) (due : Bool)
      → w.lock_taken ≡ false
      → is_due w.now c.cleanup_interval_ms w.db.cleanup_started_at ≡ due
      → PBody (
          claimed w.now
            (claim c w.now w.db).0
            (record w { db = (claim c w.now w.db).1; faults = fs }))
  scheduled_as fs true free due = rw due (
      claimed-Cleaned
        (record w { db = record w.db { cleanup_started_at = some w.now }; faults = fs }) true free
        due refl)
  scheduled_as fs false free early =
      rw early (claimed-Cleaned (with_faults fs w) false free early refl)

  locked-Cleaned : (fs : List (Option String)) → PBody (locked w.lock_taken (with_faults fs w))
  unfolding pure
  locked-Cleaned fs =
      if-post PBody w.lock_taken (pure (rollback skipped)) _ (with_faults fs w)
        (λ taken. inr (refl, inl taken, refl))
        (λ free. time-post PBody _ (with_faults fs w) (
          query-bind PBody (claim c w.now) (claimed w.now) (with_faults fs w)
            (λ gs. scheduled_as gs _ free refl) (λ gs e. tt)))

  -- A cleanup that returns has either claimed its turn, which the advisory lock and the interval
  -- since the last one allow, and has left what the three deletes leave, with the counts of the
  -- rows that they took, each within the batch; or it was refused its turn, and has changed
  -- nothing. One that throws has changed nothing.
  pub cleanup_retention-Cleaned :
      Cleaned c w.now w.lock_taken w.db (cleanup_retention c w).0 (cleanup_retention c w).1.db
  unfolding cleanup_retention ◌>>=◌
  cleanup_retention-Cleaned =
      transaction-post (Cleaned c w.now w.lock_taken w.db) w.db body w refl
        (λ fs.
          external-bind PBody (λ _. gets (λ w. w.lock_taken) >>= locked) (with_faults fs w)
            (λ gs. locked-Cleaned gs) (λ gs e. tt))
        (λ e. refl)
