-- ===== src/Worker/Postgres/Commands/Laws.antt =====
-- What the result of a device command comes to (`applyCommandResult`), whichever calls fail.
use semantic_layer_explore.Prelude.{
  ◌⊎◌, inl, inr, Bool-cases, ℕ, ◌≡◌, ◌∙◌, refl, ap, sym, Bool, true, false, Option, none, some,
  arith, ◌==◌, eq_iff, if◌then◌else◌,
}
use semantic_layer_explore.Js.Json.{Fields}
use semantic_layer_explore.Js.Text.{◌<>◌}
use semantic_layer_explore.Js.Runtime.{Runtime}
use semantic_layer_explore.Js.Result.{Result, ok, threw}
use semantic_layer_explore.Worker.Contracts.CommandResult.{CommandResult}
use semantic_layer_explore.Worker.Store.Tables.{Database, DeviceCommand}
use semantic_layer_explore.Worker.Store.Task.{
  World, Task, ◌>>=◌, ◌>>◌, pure, lift, external, apply, select, update,
}
use semantic_layer_explore.Worker.Store.Post.{bind-post, lift-post, if-post}
use semantic_layer_explore.Worker.Store.Transaction.{Ending, commit}
use semantic_layer_explore.Worker.Store.Transaction.Outcome.{with_faults, external-bind, query-bind}
use semantic_layer_explore.Worker.Store.Transaction.Post.{Inside, transaction-post}
use semantic_layer_explore.Worker.Postgres.Telemetry.{cast_time, add_workspace_event}
use semantic_layer_explore.Worker.Postgres.Telemetry.Casts.{cast_time-ok}
use semantic_layer_explore.Worker.Postgres.Commands.{
  command_of, is_final, known_command, reported_state, set_state, finish_command, result_event,
  store_state, finalize, apply_command_result,
}

-- The state of the device, where the device reports success.
abbrev pub with_state : CommandResult → ℕ → Database → Database
with_state result at db =
    if result.success
    then elim result.state [ none ↦ db | some state ↦ set_state result.device_id state at db ]
    else db

-- All that a result changes.
abbrev pub applied : CommandResult → ℕ → DeviceCommand → Database → Database
applied result at c db =
    add_workspace_event (result_event result at c)
      (finish_command result at (with_state result at db))

-- The command that the result is for, on the device that sends it.
abbrev pub IsFor : CommandResult → DeviceCommand → Database → Type 0
IsFor result c db = (command_of result.command_id db ≡ some c) × (c.device_id ≡ result.device_id)

module _ (rt : Runtime) (result : CommandResult) where
  -- What changed between two databases when a result was applied.
  abbrev pub Changed : Database → Database → Type 0
  Changed a b =
      (c : DeviceCommand) × (at : ℕ) × IsFor result c a
      × (is_final c.status ≡ false)
      × (rt.timestamptz result.occurred_at ≡ some at)
      × ((result.success ≡ false) ⊎ ((state : Fields) × (result.state ≡ some state)))
      × (b ≡ applied result at c a)

  abbrev pub Ended : Database → Result Bool → Database → Type 0
  Ended a (ok true) b =
      ((c : DeviceCommand) × IsFor result c a × (is_final c.status ≡ true)) × (b ≡ a)
  Ended a (ok false) b = Changed a b
  Ended a (threw e) b = b ≡ a

  reported_state-ok :
      (state : Fields) → reported_state result ≡ ok state → result.state ≡ some state
  unfolding reported_state
  reported_state-ok state h = go result.state h
    where
      go :
          (o : Option Fields)
          → (elim o [
            | none ↦ threw ("Successful command result has no state: " <> result.command_id)
            | some found ↦ ok found
          ])
            ≡ ok state
          → o ≡ some state
      go none k = cc k
      go (some found) k = cc k

  stored_at :
      (state : Fields) (a : Database) {b : Database}
      → a ≡ b
      → (at at' : ℕ) → rt.timestamptz result.occurred_at ≡ some at
      → rt.timestamptz result.occurred_at ≡ some at'
      → set_state result.device_id state at a ≡ set_state result.device_id state at' b
  stored_at state a same at at' e e' = cc (same, sym e ∙ e')

  known_command-ok :
      (db : Database) (c : DeviceCommand) (found : Option DeviceCommand)
      → command_of result.command_id db ≡ found
      → known_command result found ≡ ok c
      → IsFor result c db
  unfolding known_command
  known_command-ok db c none e h = cc h
  known_command-ok db c (some d) e h = elim (Bool-cases (d.device_id == result.device_id)) [
    | inl same ↦ (ground arith, ground (arith, eq_iff d.device_id result.device_id))
    | inr other ↦ ground arith
  ]

  abbrev EndedBody : Database → Result (Ending Bool) × World → Type 0
  EndedBody a = Inside (Ended a) a

  module _ (a : Database) (c : DeviceCommand) (known : IsFor result c a)
      (open_command : is_final c.status ≡ false) where
    abbrev finished : Task (Ending Bool)
    finished = do
      external
      at ← lift (cast_time rt result.occurred_at)
      apply (λ db. (tt, finish_command result at db))
      update (add_workspace_event (result_event result at c))
      pure (commit false)

    -- Behind the state of the device.
    finished-EndedBody :
        (w : World)
        → (result.success ≡ false) ⊎ ((state : Fields) × (result.state ≡ some state))
        → ((at : ℕ) → rt.timestamptz result.occurred_at ≡ some at → w.db ≡ with_state result at a)
        → EndedBody a (finished w)
    unfolding update apply ◌>>=◌ pure
    finished-EndedBody w reported same =
        external-bind (EndedBody a) _ w
          (λ fs.
            lift-post (EndedBody a) (cast_time rt result.occurred_at) _ (with_faults fs w)
              (λ at e.
                query-bind (EndedBody a)
                  (λ db. (tt, add_workspace_event (result_event result at c) db))
                  (λ _. pure (commit false))
                  (record w { db = finish_command result at w.db; faults = fs })
                  (λ gs. (
                    c,
                    at,
                    known,
                    open_command,
                    cast_time-ok rt result.occurred_at at e,
                    reported,
                    ap
                        (λ db.
                          add_workspace_event (result_event result at c)
                            (finish_command result at db))
                        (same at (cast_time-ok rt result.occurred_at at e)),
                  ))
                  (λ gs m. tt))
              (λ m e. tt))
          (λ fs e. tt)

    abbrev StateStored : Result (Unit {0}) × World → Type 0
    StateStored (ok _, v) =
        ((result.success ≡ false) ⊎ ((state : Fields) × (result.state ≡ some state)))
        × ((at : ℕ) → rt.timestamptz result.occurred_at ≡ some at → v.db ≡ with_state result at a)
    StateStored (threw e, v) = Unit

    store_state-StateStored : (w : World) → w.db ≡ a → StateStored (store_state rt result w)
    unfolding store_state pure apply
    store_state-StateStored w same =
        if-post StateStored result.success _ (pure tt) w
          (λ success.
            lift-post StateStored (reported_state result) _ w
              (λ state there.
                external-bind StateStored _ w
                  (λ fs.
                    lift-post StateStored (cast_time rt result.occurred_at) _ (with_faults fs w)
                      (λ at e. (
                        inr (state, reported_state-ok state there),
                        (λ at' e'.
                            rw (success, reported_state-ok state there)
                              (stored_at state w.db same at at'
                                (cast_time-ok rt result.occurred_at at e) e')),
                      ))
                      (λ m e. tt))
                  (λ fs m. tt))
              (λ m e. tt))
          (λ failure. (inl failure, (λ at e. rw failure same)))

    finalize-EndedBody : (w : World) → w.db ≡ a → EndedBody a (finalize rt result c w)
    unfolding finalize
    finalize-EndedBody w same =
        bind-post (EndedBody a) StateStored (store_state rt result) _ w
          (store_state-StateStored w same) (λ _ v h. finished-EndedBody v h.0 h.1) (λ m v h. tt)

  -- The body of the transaction, and what stands behind its first query.
  abbrev settle : Option DeviceCommand → Task (Ending Bool)
  settle found = do
    command ← lift (known_command result found)
    if is_final command.status then pure (commit true) else finalize rt result command

  abbrev body : Task (Ending Bool)
  body = do found ← select (command_of result.command_id); settle found

  module _ (w : World) where
    known-EndedBody :
        (u : World) (found : Option DeviceCommand)
        → u.db ≡ w.db
        → command_of result.command_id w.db ≡ found
        → EndedBody w.db (settle found u)
    unfolding pure
    known-EndedBody u found same e =
        lift-post (EndedBody w.db) (known_command result found) _ u
          (λ c there.
            let known = known_command-ok w.db c found e there in
            if-post (EndedBody w.db) (is_final c.status) (pure (commit true)) (finalize rt result c)
              u (λ final. ((c, known, final), same))
              (λ open_command. finalize-EndedBody w.db c known open_command u same))
          (λ m e. tt)

    -- A result that is reported as a duplicate is for a command of that device that had succeeded
    -- or failed before, and changes nothing. One that is applied is for a command of that device
    -- that was open: the command takes the result, the workspace gets the event, and where the
    -- device reports success its state is stored. One that throws changes nothing.
    pub apply_command_result-Ended :
        Ended w.db (apply_command_result rt result w).0 (apply_command_result rt result w).1.db
    unfolding apply_command_result select
    apply_command_result-Ended =
        transaction-post (Ended w.db) w.db body w refl
          (λ fs.
            query-bind (EndedBody w.db) (λ db. (command_of result.command_id db, db)) settle
              (with_faults fs w)
              (λ gs.
                known-EndedBody (with_faults gs w) (command_of result.command_id w.db) refl refl)
              (λ gs e. tt))
          (λ e. refl)
