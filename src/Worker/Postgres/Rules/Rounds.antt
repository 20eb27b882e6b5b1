-- ===== src/Worker/Postgres/Rules/Rounds.antt =====
-- The loop of `applyDeterministicRules` over the rules.
use semantic_layer_explore.Prelude.{
  ◌⊎◌, inl, inr, Bool-cases, ℕ, ◌≡◌, refl, Bool, true, false, ◌||◌, not, Option, List, [], ◌∷◌,
  arith, All, All-append, All-weaken,
}
use semantic_layer_explore.Js.Runtime.{Runtime}
use semantic_layer_explore.Js.Result.{Result, ok, threw}
use semantic_layer_explore.Worker.Contracts.Telemetry.{TelemetryEvent}
use semantic_layer_explore.Worker.Rule.{matches_condition}
use semantic_layer_explore.Worker.Rule.Conditions.{Satisfies, matches_condition-Satisfies_iff}
use semantic_layer_explore.Worker.Store.Tables.{Database, RuleRow, DeviceRow}
use semantic_layer_explore.Worker.Store.Task.{World, pure}
use semantic_layer_explore.Worker.Store.Post.{bind-post, if-post, select-post}
use semantic_layer_explore.Worker.Store.Transaction.Outcome.{with_faults}
use semantic_layer_explore.Worker.Postgres.Records.{has_audit}
use semantic_layer_explore.Worker.Postgres.Rules.{
  RuleMatch, match_id, enabled_device, is_cooling, fire, apply_rule, apply_rules,
}
use semantic_layer_explore.Worker.Postgres.Rules.Fire.{
  Later, Later-trans, Justified, Fired, fire-Fired,
}

module _ (rt : Runtime) (event : TelemetryEvent) (now : ℕ) where
  -- The condition of the rule holds and its cooldown is over.
  abbrev pub IsDue : RuleRow → Type 0
  IsDue row =
      (row.condition.unit ≡ event.payload.unit)
      × Satisfies row.condition.operator event.payload.value row.condition.value
      × (is_cooling now row ≡ false)

  abbrev pub OnRecord : Database → RuleRow → Type 0
  OnRecord b row =
      (has_audit (match_id event row) b ≡ true)
      ⊎ (matches_condition row.condition event ≡ false)
      ⊎ (is_cooling now row ≡ true)

  module _ (Q : RuleRow → Type 0) where
    abbrev pub Rounds : List RuleRow → Database → Result (List RuleMatch) × World → Type 0
    Rounds rows a (ok ms, v) =
        Later a v.db × All (Justified rt event now Q a v.db) ms × All (OnRecord v.db) rows
    Rounds rows a (threw e, v) = Unit

    skipped_OnRecord :
        (row : RuleRow) (a : Database)
        → (has_audit (match_id event row) a
            || (not (matches_condition row.condition event) || is_cooling now row))
          ≡ true
        → OnRecord a row
    skipped_OnRecord row a h = elim (Bool-cases (has_audit (match_id event row) a)) [
      | inl there ↦ inl there
      | inr missing ↦ elim (Bool-cases (matches_condition row.condition event)) [
        | inl holds ↦ inr (inr (ground arith))
        | inr fails ↦ inr (inl fails)
      ]
    ]

    Later-record : (a b : Database) (row : RuleRow) → Later a b → OnRecord a row → OnRecord b row
    Later-record a b row l (inl there) = inl (l.1 (match_id event row) there)
    Later-record a b row l (inr rest) = inr rest

    tried_IsDue :
        (row : RuleRow) (applied : Bool)
        → (applied || (not (matches_condition row.condition event) || is_cooling now row)) ≡ false
        → (applied ≡ false) × IsDue row
    tried_IsDue row applied h =
        let holds : matches_condition row.condition event ≡ true = ground arith in
        let (unit, satisfied) = (matches_condition-Satisfies_iff row.condition event).0 holds in
        (ground arith, (unit, satisfied, ground arith))

    Fired-Rounds :
        (row : RuleRow) (a : Database) (q : Result (List RuleMatch) × World)
        → Q row
        → IsDue row
        → has_audit (match_id event row) a ≡ false
        → Fired rt event now row a q
        → Rounds (row ∷ []) a q
    Fired-Rounds row a (ok ms, v) known due fresh (kept, there, same, device) = (
      kept,
      rw same ((row, known, refl, (fresh, there, due.0, due.1, due.2, device)), tt),
      (inl there, tt),
    )
    Fired-Rounds row a (threw e, v) known due fresh h = tt

    apply_rule-Rounds :
        (row : RuleRow) (w : World) → Q row → Rounds (row ∷ []) w.db (apply_rule rt event now row w)
    unfolding apply_rule pure
    apply_rule-Rounds row w known =
        let P = Rounds (row ∷ []) w.db in
        select-post P (has_audit (match_id event row)) _ w
          (λ fs.
            if-post P
              (has_audit (match_id event row) w.db
                || (not (matches_condition row.condition event) || is_cooling now row))
              (pure []) (fire rt event now row) (with_faults fs w)
              (λ skipped. ((refl, λ id h. h), tt, (skipped_OnRecord row w.db skipped, tt)))
              (λ triggered.
                let (fresh, due) =
                  tried_IsDue row (has_audit (match_id event row) w.db) triggered in
                Fired-Rounds row w.db _ known due fresh
                  (fire-Fired rt event now row (with_faults fs w))))
          (λ fs e. tt)

    Later-match :
        (a b c : Database)
        → Later b c
        → (m : RuleMatch) → Justified rt event now Q a b m
        → Justified rt event now Q a c m
    Later-match a b c l m (row, known, same, (fresh, there, unit, s, warm, device)) =
        (row, known, same, (fresh, l.1 (match_id event row) there, unit, s, warm, device))

    earlier_match :
        (a b c : Database)
        → Later a b
        → (m : RuleMatch) → Justified rt event now Q b c m
        → Justified rt event now Q a c m
    earlier_match a b c l m (row, known, same, (fresh, there, unit, s, warm, (device, found, p))) =
        let first : has_audit (match_id event row) a ≡ false =
          ground (arith, l.1 (match_id event row)) in
        (row, known, same, (first, there, unit, s, warm, (device, at_first found, p)))
      where
        at_first :
            {o : Option DeviceRow}
            → enabled_device row.action.device_id b ≡ o
            → enabled_device row.action.device_id a ≡ o
        at_first e = rw (← l.0) e

    pub apply_rules-Rounds :
        (rows : List RuleRow) (w : World)
        → All Q rows
        → Rounds rows w.db (apply_rules rt event now rows w)
    unfolding apply_rules pure
    apply_rules-Rounds [] w h = ((refl, λ id t. t), tt, tt)
    apply_rules-Rounds (row ∷ rows) w (known, h) =
        bind-post (Rounds (row ∷ rows) w.db) (Rounds (row ∷ []) w.db) (apply_rule rt event now row)
          _ w (apply_rule-Rounds row w known)
          (λ first u one.
            bind-post (Rounds (row ∷ rows) w.db) (Rounds rows u.db) (apply_rules rt event now rows)
              _ u (apply_rules-Rounds rows u h)
              (λ others v more. (
                Later-trans w.db u.db v.db one.0 more.0,
                All-append (Justified rt event now Q w.db v.db) first others
                    (All-weaken (Later-match w.db u.db v.db more.0) first one.1)
                    (All-weaken (earlier_match w.db u.db v.db one.0) others more.1),
                (Later-record u.db v.db row more.0 one.2.0, more.2),
              ))
              (λ e v failed. tt))
          (λ e v failed. tt)
