-- ===== src/Worker/Postgres/Rules/Laws.antt =====
-- Which rules a reading triggers (`applyDeterministicRules`), whichever calls fail.
use semantic_layer_explore.Prelude.{
  ◌⊎◌, inl, inr, Bool-cases, false, ℕ, String, ◌≡◌, refl, true, Option, List, arith, All, Member,
  filter-Member, All-of_members,
}
use semantic_layer_explore.Js.Runtime.{Runtime}
use semantic_layer_explore.Js.Result.{Result, ok, threw}
use semantic_layer_explore.Worker.Contracts.Telemetry.{TelemetryEvent}
use semantic_layer_explore.Worker.Rule.{matches_condition}
use semantic_layer_explore.Worker.Store.Tables.{Database, RuleRow, SensorRow}
use semantic_layer_explore.Worker.Store.Task.{World, Task, ◌>>=◌, ◌>>◌, pure, lift, select, time}
use semantic_layer_explore.Worker.Store.Post.{bind-post, lift-post, select-post, time-post}
use semantic_layer_explore.Worker.Store.Transaction.{Ending, commit}
use semantic_layer_explore.Worker.Store.Transaction.Outcome.{with_faults}
use semantic_layer_explore.Worker.Store.Transaction.Post.{Inside, transaction-post}
use semantic_layer_explore.Worker.Postgres.Records.{has_audit}
use semantic_layer_explore.Worker.Postgres.Rules.{
  is_cooling, RuleMatch, match_id, is_compatible, enabled_sensor, is_candidate, candidates,
  rule_match, apply_rules, check_sensor, apply_deterministic_rules,
}
use semantic_layer_explore.Worker.Postgres.Rules.Fire.{Triggered}
use semantic_layer_explore.Worker.Postgres.Rules.Rounds.{Rounds, apply_rules-Rounds}

-- What a reading comes to: the rules that it triggers, or an error that changes nothing.
module _ (rt : Runtime) (event : TelemetryEvent) (now : ℕ) (a : Database) where
  abbrev IsKnown : RuleRow → Type 0
  IsKnown row = Member row a.rules × (is_candidate event row ≡ true)

  abbrev pub Applied : Result (List RuleMatch) → Database → Type 0
  Applied (ok ms) b =
      (is_compatible event (enabled_sensor event.sensor_id a) ≡ true)
      × All
          (λ m.
            (row : RuleRow) × (Member row a.rules × (is_candidate event row ≡ true))
            × (m ≡ rule_match rt event now row)
            × Triggered rt event now a b row)
          ms
      × All
          (λ row.
            (has_audit (match_id event row) b ≡ true)
            ⊎ (matches_condition row.condition event ≡ false)
            ⊎ (is_cooling now row ≡ true))
          (candidates event a)
  Applied (threw e) b = b ≡ a

module _ (rt : Runtime) (event : TelemetryEvent) (w : World) where
  abbrev steps : Option SensorRow → Task (Ending (List RuleMatch))
  steps sensor = do
    lift (check_sensor event sensor)
    rules ← select (candidates event)
    now ← time
    matched ← apply_rules rt event now rules
    pure (commit matched)

  abbrev body : Task (Ending (List RuleMatch))
  body = do sensor ← select (enabled_sensor event.sensor_id); steps sensor

  compatible : (o : Option SensorRow) → check_sensor event o ≡ ok tt → is_compatible event o ≡ true
  unfolding check_sensor
  compatible o h = elim (Bool-cases (is_compatible event o)) [ inl e ↦ e | inr e ↦ ground arith ]

  IsKnown-candidates : All (IsKnown rt event w.now w.db) (candidates event w.db)
  IsKnown-candidates =
      All-of_members (IsKnown rt event w.now w.db) (candidates event w.db)
        (λ row m. filter-Member (is_candidate event) w.db.rules m)

  abbrev P : Result (Ending (List RuleMatch)) × World → Type 0
  P = Inside (Applied rt event w.now w.db) w.db

  body-Applied : (fs : List (Option String)) → P (body (with_faults fs w))
  unfolding pure
  body-Applied fs =
      select-post P (enabled_sensor event.sensor_id) steps (with_faults fs w)
        (λ fs.
          lift-post P (check_sensor event (enabled_sensor event.sensor_id w.db)) _
            (with_faults fs w)
            (λ _ passed.
              select-post P (candidates event) _ (with_faults fs w)
                (λ fs. time-post P _ (with_faults fs w) (
                  bind-post P
                    (Rounds rt event w.now (IsKnown rt event w.now w.db) (candidates event w.db)
                      w.db)
                    (apply_rules rt event w.now (candidates event w.db)) _ (with_faults fs w)
                    (apply_rules-Rounds rt event w.now (IsKnown rt event w.now w.db)
                      (candidates event w.db) (with_faults fs w) IsKnown-candidates)
                    (λ ms v h. (compatible (enabled_sensor event.sensor_id w.db) passed, h.1, h.2))
                    (λ e v h. tt)))
                (λ fs e. tt))
            (λ e failed. tt))
        (λ fs e. tt)

  -- A call that returns has found the sensor of the reading enabled, of its type and unit. Each
  -- match is of an enabled rule on that sensor that was not on record for this event and is now,
  -- whose condition holds, whose cooldown is over, and whose device is enabled and permits the
  -- action. And each enabled rule on the sensor is on record now, unless its condition fails or it
  -- is cooling. A call that throws changes nothing.
  pub apply_deterministic_rules-Applied :
      Applied rt event w.now w.db
        (apply_deterministic_rules rt event w).0
        (apply_deterministic_rules rt event w).1.db
  unfolding apply_deterministic_rules
  apply_deterministic_rules-Applied =
      transaction-post (Applied rt event w.now w.db) w.db body w refl body-Applied (λ e. refl)
