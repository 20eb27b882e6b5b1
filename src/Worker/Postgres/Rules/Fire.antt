-- ===== src/Worker/Postgres/Rules/Fire.antt =====
-- One rule that fires (the statements of the loop of `applyDeterministicRules`).
use semantic_layer_explore.Prelude.{
  ℕ, String, ◌≡◌, ◌∙◌, inl, inr, refl, true, false, Option, none, some, List, [], ◌∷◌, arith, ◌==◌,
  eq_refl, Bool-cases, any, any-append,
}
use semantic_layer_explore.Js.Runtime.{Runtime}
use semantic_layer_explore.Js.Result.{Result, ok, threw}
use semantic_layer_explore.Worker.Contracts.Telemetry.{TelemetryEvent}
use semantic_layer_explore.Worker.Rule.{apply_action}
use semantic_layer_explore.Worker.Rule.Conditions.{Satisfies}
use semantic_layer_explore.Worker.Rule.Laws.{Permits, apply_action-Permits_iff}
use semantic_layer_explore.Worker.Store.Tables.{
  Database, RuleRow, DeviceRow, AuditEvent, insert_new,
}
use semantic_layer_explore.Worker.Store.Task.{World, pure}
use semantic_layer_explore.Worker.Store.Post.{lift-post, select-post, updates-post}
use semantic_layer_explore.Worker.Store.Transaction.Outcome.{with_faults}
use semantic_layer_explore.Worker.Postgres.Telemetry.{add_workspace_event}
use semantic_layer_explore.Worker.Postgres.Records.{has_audit, add_audit}
use semantic_layer_explore.Worker.Postgres.Rules.{
  RuleMatch, match_id, enabled_device, is_cooling, touch_rule, add_command, matched_event,
  pending_command, pending_event, match_audit, rule_match, available, fire,
}

-- The devices of a database stay, and so does each row of the audit.
abbrev pub Later : Database → Database → Type 0
Later a b =
    (b.devices ≡ a.devices) × ((id : String) → has_audit id a ≡ true → has_audit id b ≡ true)

pub Later-trans : (a b c : Database) → Later a b → Later b c → Later a c
Later-trans a b c (d, h) (e, k) = (e ∙ d, λ id t. k id (h id t))

audit_added : (row : AuditEvent) (db : Database) → has_audit row.audit_id (add_audit row db) ≡ true
unfolding add_audit insert_new any
audit_added row db = elim (Bool-cases (has_audit row.audit_id db)) [
  | inl old ↦ rw old old
  | inr new ↦ rw new (
      any-append (λ r. r.audit_id == row.audit_id) db.audit_events (row ∷ [])
      ∙ ground (arith, eq_refl row.audit_id))
]

audit_stays :
    (row : AuditEvent) (db : Database) (id : String)
    → has_audit id db ≡ true
    → has_audit id (add_audit row db) ≡ true
unfolding add_audit insert_new
audit_stays row db id h = elim (Bool-cases (has_audit row.audit_id db)) [
  | inl old ↦ rw old h
  | inr new ↦
      rw new (any-append (λ r. r.audit_id == id) db.audit_events (row ∷ []) ∙ ground (arith, h))
]

module _ (rt : Runtime) (event : TelemetryEvent) (now : ℕ) where
  -- A rule that the event triggers between two databases: it is not on record for this event before
  -- and is after, its condition holds, its cooldown is over, and its device is enabled and permits
  -- the action.
  abbrev pub Triggered : Database → Database → RuleRow → Type 0
  Triggered a b row =
      (has_audit (match_id event row) a ≡ false)
      × (has_audit (match_id event row) b ≡ true)
      × (row.condition.unit ≡ event.payload.unit)
      × Satisfies row.condition.operator event.payload.value row.condition.value
      × (is_cooling now row ≡ false)
      × ((device : DeviceRow) × (enabled_device row.action.device_id a ≡ some device)
          × Permits device.type row.action)

  abbrev pub Justified : (RuleRow → Type 0) → Database → Database → RuleMatch → Type 0
  Justified Q a b m =
      (row : RuleRow) × Q row × (m ≡ rule_match rt event now row) × Triggered a b row

  module _ (row : RuleRow) where
    abbrev before_audit : Database → Database
    before_audit db = add_workspace_event (pending_event rt event now row) (
        add_command (pending_command rt event now row)
          (add_workspace_event (matched_event rt event now row) (touch_rule now row.id db)))

    abbrev all_written : Database → Database
    all_written db = add_audit (match_audit rt event now row) (before_audit db)

    all_written-Later : (db : Database) → Later db (all_written db)
    unfolding add_workspace_event add_command touch_rule add_audit
    all_written-Later db =
        (refl, λ id h. audit_stays (match_audit rt event now row) (before_audit db) id h)

    recorded : (db : Database) → has_audit (match_id event row) (all_written db) ≡ true
    unfolding match_audit
    recorded db = audit_added (match_audit rt event now row) (before_audit db)

    abbrev pub Available : Database → Type 0
    Available db =
        (device : DeviceRow) × (enabled_device row.action.device_id db ≡ some device)
        × Permits device.type row.action

    abbrev pub Fired : Database → Result (List RuleMatch) × World → Type 0
    Fired db (ok ms, v) =
        Later db v.db
        × (has_audit (match_id event row) v.db ≡ true)
        × (ms ≡ rule_match rt event now row ∷ [])
        × Available db
    Fired db (threw e, v) = Unit

    available-ok :
        (o : Option DeviceRow) (d : DeviceRow) → available rt event now row o ≡ ok d → o ≡ some d
    unfolding available
    available-ok none d h = cc h
    available-ok (some e) d h = cc h

    pub fire-Fired : (w : World) → Fired w.db (fire rt event now row w)
    unfolding fire pure
    fire-Fired w =
        let P = Fired w.db in
        select-post P (enabled_device row.action.device_id) _ w
          (λ fs.
            lift-post P (available rt event now row (enabled_device row.action.device_id w.db)) _
              (with_faults fs w)
              (λ device found.
                lift-post P (apply_action device.type device.state row.action (rt.iso now)) _
                  (with_faults fs w)
                  (λ state done.
                    updates-post P
                      (touch_rule now row.id
                        ∷ add_workspace_event (matched_event rt event now row)
                        ∷ add_command (pending_command rt event now row)
                        ∷ add_workspace_event (pending_event rt event now row)
                        ∷ add_audit (match_audit rt event now row)
                        ∷ [])
                      (pure (rule_match rt event now row ∷ [])) (with_faults fs w)
                      (λ gs. (
                        all_written-Later w.db,
                        recorded w.db,
                        refl,
                        (
                          device,
                          available-ok (enabled_device row.action.device_id w.db) device found,
                          (apply_action-Permits_iff device.type device.state row.action
                                (rt.iso now)).0
                              (state, done),
                        ),
                      ))
                      (λ e v. tt))
                  (λ e failed. tt))
              (λ e failed. tt))
          (λ fs e. tt)
