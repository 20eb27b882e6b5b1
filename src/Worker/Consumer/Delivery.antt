-- ===== src/Worker/Consumer/Delivery.antt =====
-- No message is lost (`eachMessage` of worker/src/consumer/telemetry-consumer.ts), whichever calls
-- of PostgreSQL and Kafka fail.
use semantic_layer_explore.Prelude.{
  ℕ, suc, ◌+◌, String, ◌≡◌, ◌⊎◌, inl, inr, refl, ap, sym, ◌∙◌, Bool, true, List, [], ◌∷◌, ◌++◌,
  eq_iff, arith, any, any-append, Bool-cases,
}
use mathlib.Core.Path.{subst}
use semantic_layer_explore.Js.Runtime.{Runtime}
use semantic_layer_explore.Js.Result.{Result, ok, threw}
use semantic_layer_explore.Worker.Config.{Config}
use semantic_layer_explore.Worker.Store.Tables.{Database, Position, DeadLetter}
use semantic_layer_explore.Worker.Store.Task.{World, Task, ◌>>=◌, apply_or_throw, modify, try_catch}
use semantic_layer_explore.Worker.Store.Transaction.Outcome.{with_faults, external-bind}
use semantic_layer_explore.Worker.Store.Keeps.{Keeps, Keeps-try_catch}
use semantic_layer_explore.Worker.Store.Frame.{Offsets, Offsets-IsStable, Offsets-transaction, OfDb}
use semantic_layer_explore.Worker.Store.Inversion.{bind-eq-ok, bind-eq-threw, try_catch-cases}
use semantic_layer_explore.Worker.Postgres.Records.{
  same_position, has_dead_letter, has_dead_letter_id, append_dead_letter, put_dead_letter,
  insert_dead_letter,
}
use semantic_layer_explore.Worker.Services.DeadLetters.{
  DeadLetterInput, to_dead_letter, publish_dead_letter, record_dead_letter,
}
use semantic_layer_explore.Worker.Consumer.{
  KafkaMessage, position_of, classify_failure, process, commit_offset, each_message,
}
use semantic_layer_explore.Worker.Postgres.Telemetry.{mark_seen, add_telemetry, add_workspace_event}
use semantic_layer_explore.Worker.Postgres.Records.{add_audit}
use semantic_layer_explore.Worker.Postgres.Rules.{touch_rule, add_command}
use semantic_layer_explore.Worker.Postgres.Commands.{set_state, finish_command}
use semantic_layer_explore.Worker.Postgres.Retention.{purge_telemetry, purge_readings, purge_audit}
use semantic_layer_explore.Worker.Writes.{Write, IsKept, dead_letter}
use semantic_layer_explore.Worker.Writes.Kept.{OfDb-IsKept}
use semantic_layer_explore.Worker.Writes.Consumer.{
  process-Keeps, record_dead_letter-Keeps, publish_dead_letter-Keeps,
}

-- No call before `commitOffsets` commits an offset.
Offsets-IsKept : (ps : List Position) → IsKept (Offsets ps)
Offsets-IsKept ps = record {
  stable = Offsets-IsStable ps;
  write = λ w db x h. h;
  send = λ w m h. h;
  connect_agent = λ w h. h;
  connect_dead_letter = λ w h. h;
  in_transaction = λ A body k. Offsets-transaction ps body k;
}

same_position_refl : (p : Position) → same_position p p ≡ true
unfolding same_position
same_position_refl p = ground (arith, eq_iff p.topic p.topic)

abbrev IsDeadLettered : Position → Database → Type 0
IsDeadLettered p db = has_dead_letter p db ≡ true

appended :
    (row : DeadLetter) (db : Database) (p : Position)
    → IsDeadLettered p db
    → IsDeadLettered p (append_dead_letter row db)
unfolding append_dead_letter
appended row db p h =
    any-append (λ r. same_position r.source p) db.dead_letters (row ∷ []) ∙ ground (arith, h)

appended_self :
    (row : DeadLetter) (db : Database) → IsDeadLettered row.source (append_dead_letter row db)
unfolding append_dead_letter any
appended_self row db =
    any-append (λ r. same_position r.source row.source) db.dead_letters (row ∷ [])
    ∙ ground (arith, same_position_refl row.source)

Write-IsDeadLettered :
    (p : Position) {a b : Database} → Write a b → IsDeadLettered p a → IsDeadLettered p b
unfolding mark_seen add_telemetry add_workspace_event add_audit add_command touch_rule set_state
    finish_command purge_telemetry purge_readings purge_audit
Write-IsDeadLettered p (dead_letter row db _ _) h = appended row db p h
Write-IsDeadLettered p _ h = h

IsDeadLettered-IsKept : (p : Position) → IsKept (OfDb (IsDeadLettered p))
IsDeadLettered-IsKept p =
    OfDb-IsKept (IsDeadLettered p) (λ a b x. Write-IsDeadLettered p {a = a} {b = b} x)

abbrev Ensures : (Database → Type 0) → Result Bool × World → Type 0
Ensures P q = (d : Bool) → q.0 ≡ ok d → P q.1.db

put_dead_letter-Ensures :
    (row : DeadLetter) (w : World)
    → Ensures (IsDeadLettered row.source) (apply_or_throw (put_dead_letter row) w)
unfolding apply_or_throw
put_dead_letter-Ensures row w d = elim (Bool-cases (has_dead_letter row.source w.db)) [
  | inl old ↦ rw old (λ _. old)
  | inr new ↦ elim (Bool-cases (has_dead_letter_id row.dead_letter_id w.db)) [
    | inl taken ↦ rw (new, taken) (λ e. cc e)
    | inr free ↦ rw (new, free) (λ _. appended_self row w.db)
  ]
]

insert_dead_letter-Ensures :
    (row : DeadLetter) (w : World) → Ensures (IsDeadLettered row.source) (insert_dead_letter row w)
unfolding insert_dead_letter
insert_dead_letter-Ensures row w =
    external-bind (Ensures (IsDeadLettered row.source)) (λ _. apply_or_throw (put_dead_letter row))
      w (λ fs. put_dead_letter-Ensures row (with_faults fs w)) (λ fs e d h. cc h)

ensured_at :
    (P : Database → Type 0) {q : Result Bool × World} {u : World} (d : Bool)
    → q ≡ (ok d, u)
    → Ensures P q
    → P u.db
ensured_at P d e k = subst (λ (q : Result Bool × World). Ensures P q) e k d refl

module _ (config : Config) (rt : Runtime) where
  -- A dead letter that was recorded without an error is in the table.
  record_dead_letter-ensures :
      (i : DeadLetterInput) (w v : World)
      → record_dead_letter config rt i w ≡ (ok tt, v)
      → IsDeadLettered i.source v.db
  unfolding record_dead_letter ◌>>=◌
  record_dead_letter-ensures i w v h =
      let letter = to_dead_letter rt i (rt.uuid w.uuids) w.now in
      let w' = record w { uuids = suc w.uuids } in
      let (d, u, inserted, published) =
        bind-eq-ok (insert_dead_letter letter) (λ _. publish_dead_letter config rt letter) w' h in
      let there : IsDeadLettered i.source u.db =
        ensured_at (IsDeadLettered i.source) d inserted (insert_dead_letter-Ensures letter w') in
      let kept = publish_dead_letter-Keeps (IsDeadLettered-IsKept i.source) config rt letter in
      subst (λ (q : Result Unit × World). IsDeadLettered i.source q.1.db) published
        (kept.at u there)

  abbrev step : World → String → ℕ → KafkaMessage → Result (Unit {0}) × World
  step w topic partition message = each_message config rt topic partition message w

  abbrev next_offset : Position → Position
  next_offset p = record p { offset = p.offset + 1 }

  abbrev Advanced : Position → World → Result (Unit {0}) × World → Type 0
  Advanced p w (ok _, v) = (v.committed ≡ w.committed ++ next_offset p ∷ []) × (v.db ≡ w.db)
  Advanced p w (threw e, v) = v.committed ≡ w.committed

  commit_offset-Advanced : (p : Position) (w : World) → Advanced p w (commit_offset config rt p w)
  unfolding commit_offset ◌>>=◌
  commit_offset-Advanced p w =
      external-bind (Advanced p w)
        (λ _. modify (λ v. record v { committed = v.committed ++ next_offset p ∷ [] })) w
        (λ fs. (refl, refl)) (λ fs e. refl)

  module _ (topic : String) (partition : ℕ) (message : KafkaMessage) where
    abbrev position : Position
    position = position_of topic partition message

    abbrev letter_of : String → DeadLetterInput
    letter_of error = record {
      source = position;
      key = message.key;
      value = message.value;
      reason = classify_failure error;
      error = error;
    }

    abbrev guarded : Task (Unit {0})
    guarded =
        try_catch (process config rt position message.value)
          (λ error. record_dead_letter config rt (letter_of error))

    guarded-Offsets : (ps : List Position) → Keeps (Offsets ps) guarded
    guarded-Offsets ps =
        let kept = Offsets-IsKept ps in
        Keeps-try_catch _ _ (process-Keeps kept config rt position message.value)
          (λ e. record_dead_letter-Keeps kept config rt (letter_of e))

    guarded-ensures :
        (w v : World)
        → guarded w ≡ (ok tt, v)
        → ((process config rt position message.value w).0 ≡ ok tt) ⊎ IsDeadLettered position v.db
    guarded-ensures w v h =
        elim (try_catch-cases (process config rt position message.value)
          (λ error. record_dead_letter config rt (letter_of error)) w) [
            | inl (_, u, done, _) ↦ inl (ap (λ (q : Result Unit × World). q.0) done)
            | inr (e, u, failed, caught_as) ↦
                inr (record_dead_letter-ensures (letter_of e) u v (sym caught_as ∙ h))
          ]

    offsets_after :
        (w u : World) {r : Result (Unit {0})} → guarded w ≡ (r, u) → u.committed ≡ w.committed
    offsets_after w u e =
        subst (λ (q : Result Unit × World). q.1.committed ≡ w.committed) e
          ((guarded-Offsets w.committed).at w refl)

    advanced_ok :
        (u v : World)
        → commit_offset config rt position u ≡ (ok tt, v)
        → (v.committed ≡ u.committed ++ next_offset position ∷ []) × (v.db ≡ u.db)
    advanced_ok u v moved =
        subst (λ q. Advanced position u q) moved (commit_offset-Advanced position u)

    -- How the handler may end.
    abbrev pub Delivered : World → Result (Unit {0}) × World → Type 0
    Delivered w (ok _, v) =
        (v.committed ≡ w.committed ++ next_offset position ∷ [])
        × (((process config rt position message.value w).0 ≡ ok tt)
            ⊎ (has_dead_letter position v.db ≡ true))
    Delivered w (threw e, v) = v.committed ≡ w.committed

    ended-Delivered :
        (w : World) (q : Result (Unit {0}) × World)
        → each_message config rt topic partition message w ≡ q
        → Delivered w q
    unfolding each_message
    ended-Delivered w (ok _, v) h =
        let (_, u, ran, moved) = bind-eq-ok guarded (λ _. commit_offset config rt position) w h in
        let same = offsets_after w u ran in
        let (now, kept_db) = advanced_ok u v moved in
        (
          now ∙ ap (λ ps. ps ++ next_offset position ∷ []) same,
          elim (guarded-ensures w u ran) [
            | inl done ↦ inl done
            | inr there ↦ inr (rw kept_db there)
          ],
        )
    ended-Delivered w (threw e, v) h =
        elim (bind-eq-threw guarded (λ _. commit_offset config rt position) w h) [
          | inl failed ↦ offsets_after w v failed
          | inr (_, u, ran, stuck) ↦
              subst (λ q. Advanced position u q) stuck (commit_offset-Advanced position u)
              ∙ offsets_after w u ran
        ]

    -- If the handler of a message returns, the offset behind the message is committed, once, and
    -- the message was processed without an error or a dead letter of its topic, partition and
    -- offset is in the table. If the handler throws, no offset is committed. Any call of PostgreSQL
    -- and Kafka may fail.
    pub each_message-delivers :
        (w : World) → Delivered w (each_message config rt topic partition message w)
    each_message-delivers w = ended-Delivered w _ refl
