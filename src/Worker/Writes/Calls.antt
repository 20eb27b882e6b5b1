-- ===== src/Worker/Writes/Calls.antt =====
-- Every method of `PostgresService` keeps what each write keeps.
use semantic_layer_explore.Prelude.{ℕ, List, [], ◌∷◌, ◌++◌, Bool-cases, inl, inr}
use semantic_layer_explore.Js.Runtime.{Runtime}
use semantic_layer_explore.Worker.Config.{RetentionConfig}
use semantic_layer_explore.Worker.Contracts.Telemetry.{TelemetryEvent}
use semantic_layer_explore.Worker.Contracts.CommandResult.{CommandResult}
use semantic_layer_explore.Worker.Store.Tables.{
  Database, Position, AuditEvent, DeadLetter, DeviceCommand, RuleRow,
}
use semantic_layer_explore.Worker.Store.Task.{World, apply, apply_or_throw}
use semantic_layer_explore.Worker.Store.Keeps.{Keeps, Keeps-bind, Keeps-pure}
use semantic_layer_explore.Worker.Store.Frame.{keeps_rules}
use semantic_layer_explore.Worker.Postgres.Telemetry.{insert_fresh, insert_telemetry}
use semantic_layer_explore.Worker.Postgres.Records.{
  has_dead_letter, has_dead_letter_id, insert_dead_letter, insert_audit_event, put_dead_letter,
}
use semantic_layer_explore.Worker.Postgres.Rules.{
  fire, apply_rule, apply_rules, apply_deterministic_rules,
}
use semantic_layer_explore.Worker.Postgres.Commands.{store_state, finalize, apply_command_result}
use semantic_layer_explore.Worker.Postgres.Retention.{is_due, claim, purge_all, cleanup_retention}
use semantic_layer_explore.Worker.Writes.{
  Write, IsKept, seen, telemetry, workspace, audit, dead_letter, command, touch, state, finish,
  old_telemetry, old_readings, old_audit, start,
}

module _ {P : World → Type 0} (kept : IsKept P) where
  written {ℓ} :
      {A : Type ℓ} (f : Database → A) (g : Database → Database)
      → ((db : Database) → Write db (g db))
      → Keeps P (apply (λ db. (f db, g db)))
  unfolding apply
  written f g k = record { at = λ w h. kept.write w (g w.db) (k w.db) h }

  insert_fresh-Keeps :
      (rt : Runtime) (event : TelemetryEvent) (position : Position)
      → Keeps P (insert_fresh rt event position)
  unfolding insert_fresh
  insert_fresh-Keeps rt event position =
      search (keeps_rules, kept.stable, written, telemetry, workspace) depth 12

  pub insert_telemetry-Keeps :
      (rt : Runtime) (event : TelemetryEvent) (position : Position)
      → Keeps P (insert_telemetry rt event position)
  unfolding insert_telemetry
  insert_telemetry-Keeps rt event position =
      search (keeps_rules, kept.stable, kept.in_transaction, written, seen, insert_fresh-Keeps)
        depth 12

  put_dead_letter-Keeps : (row : DeadLetter) → Keeps P (apply_or_throw (put_dead_letter row))
  unfolding apply_or_throw
  put_dead_letter-Keeps row = record { at = λ w h. go w h }
    where
      go : (w : World) → P w → P (apply_or_throw (put_dead_letter row) w).1
      go w h = elim (Bool-cases (has_dead_letter row.source w.db)) [
        | inl old ↦ rw old h
        | inr new ↦ elim (Bool-cases (has_dead_letter_id row.dead_letter_id w.db)) [
          | inl taken ↦ rw (new, taken) h
          | inr free ↦ rw (new, free) (kept.write w _ (dead_letter row w.db new free) h)
        ]
      ]

  pub insert_dead_letter-Keeps : (row : DeadLetter) → Keeps P (insert_dead_letter row)
  unfolding insert_dead_letter
  insert_dead_letter-Keeps row = search (keeps_rules, kept.stable, put_dead_letter-Keeps)

  pub insert_audit_event-Keeps : (row : AuditEvent) → Keeps P (insert_audit_event row)
  unfolding insert_audit_event
  insert_audit_event-Keeps row = search (keeps_rules, kept.stable, written, audit)

  module _ (rt : Runtime) (event : TelemetryEvent) (now : ℕ) where
    fire-Keeps : (row : RuleRow) → Keeps P (fire rt event now row)
    unfolding fire
    fire-Keeps row =
        search (keeps_rules, kept.stable, written, touch, workspace, command, audit) depth 24

    apply_rule-Keeps : (row : RuleRow) → Keeps P (apply_rule rt event now row)
    unfolding apply_rule
    apply_rule-Keeps row = search (keeps_rules, kept.stable, fire-Keeps) depth 8

    apply_rules-Keeps : (rows : List RuleRow) → Keeps P (apply_rules rt event now rows)
    unfolding apply_rules
    apply_rules-Keeps [] = search keeps_rules
    apply_rules-Keeps (row ∷ rows) =
        Keeps-bind (apply_rule rt event now row) _ (apply_rule-Keeps row) (λ first.
          Keeps-bind (apply_rules rt event now rows) _ (apply_rules-Keeps rows)
            (λ others. Keeps-pure (first ++ others)))

  pub apply_deterministic_rules-Keeps :
      (rt : Runtime) (event : TelemetryEvent) → Keeps P (apply_deterministic_rules rt event)
  unfolding apply_deterministic_rules
  apply_deterministic_rules-Keeps rt event =
      search (keeps_rules, kept.stable, kept.in_transaction, apply_rules-Keeps) depth 16

  module _ (rt : Runtime) (result : CommandResult) where
    store_state-Keeps : Keeps P (store_state rt result)
    unfolding store_state
    store_state-Keeps = search (keeps_rules, kept.stable, written, state) depth 12

    finalize-Keeps : (c : DeviceCommand) → Keeps P (finalize rt result c)
    unfolding finalize
    finalize-Keeps c =
        search (keeps_rules, kept.stable, written, store_state-Keeps, finish, workspace) depth 14

    pub apply_command_result-Keeps : Keeps P (apply_command_result rt result)
    unfolding apply_command_result
    apply_command_result-Keeps =
        search (keeps_rules, kept.stable, kept.in_transaction, finalize-Keeps) depth 12

  module _ (c : RetentionConfig) where
    claim-Keeps : (now : ℕ) → Keeps P (apply (claim c now))
    unfolding apply
    claim-Keeps now = record {
      at = λ w h. elim (Bool-cases (is_due now c.cleanup_interval_ms w.db.cleanup_started_at)) [
        | inl due ↦ rw due (kept.write w _ (start now w.db) h)
        | inr early ↦ rw early h
      ];
    }

    purge_all-Keeps : (now : ℕ) → Keeps P (purge_all c now)
    unfolding purge_all
    purge_all-Keeps now =
        search (keeps_rules, kept.stable, written, old_telemetry, old_readings, old_audit) depth 14

    pub cleanup_retention-Keeps : Keeps P (cleanup_retention c)
    unfolding cleanup_retention
    cleanup_retention-Keeps =
        search (keeps_rules, kept.stable, kept.in_transaction, claim-Keeps, purge_all-Keeps) depth
          14
