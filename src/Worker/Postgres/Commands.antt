-- ===== src/Worker/Postgres/Commands.antt =====
-- `applyCommandResult` of worker/src/persistence/postgres-service.ts
pub mod Laws
use semantic_layer_explore.Prelude.{
  ℕ, String, Bool, true, false, ◌&&◌, ◌||◌, not, Option, none, some, List, [], ◌∷◌, ◌==◌, find, map,
  or_else, max, if◌then◌else◌,
}
use semantic_layer_explore.Js.Number.{Number, to_nat}
use semantic_layer_explore.Js.Json.{Json, string, object, Fields, object_of, set_field}
use semantic_layer_explore.Js.Text.{◌<>◌}
use semantic_layer_explore.Js.Runtime.{Runtime}
use semantic_layer_explore.Js.Result.{Result, ok, threw}
use semantic_layer_explore.Worker.Contracts.CommandResult.{CommandResult}
use semantic_layer_explore.Worker.Store.Tables.{Database, WorkspaceEvent, DeviceCommand, DeviceRow}
use semantic_layer_explore.Worker.Store.Task.{
  World, Task, ◌>>=◌, ◌>>◌, pure, throw, lift, external, apply, query, select, update,
}
use semantic_layer_explore.Worker.Store.Transaction.{Ending, commit, transaction}
use semantic_layer_explore.Worker.Postgres.Telemetry.{cast_time, add_workspace_event}

abbrev pub command_of : String → Database → Option DeviceCommand
command_of id db = find (λ c. c.command_id == id) db.commands

abbrev pub is_final : String → Bool
is_final status = status == "succeeded" || status == "failed"

unfoldable pub final_status : CommandResult → String
final_status result = if result.success then "succeeded" else "failed"

unfoldable pub failure_code_of : CommandResult → Option String
failure_code_of result =
    if result.success then none else some (or_else result.failure_code "device.command.rejected")

abbrev with_code : Option String → Fields → Fields
with_code none fs = fs
with_code (some code) fs = if code == "" then fs else set_field "failureCode" (string code) fs

-- `{ ...result, ...(failureCode ? { failureCode } : {}) }`
unfoldable pub result_json : CommandResult → Json
unfolding set_field failure_code_of
result_json result = object (with_code (failure_code_of result) result.raw)

abbrev attempts_of : Option Number → ℕ
attempts_of none = 0
attempts_of (some n) = to_nat n

unfoldable pub set_state : String → Fields → ℕ → Database → Database
set_state id state at db = record db {
  devices =
      map (λ d. if d.id == id then record d { state = state; updated_at = at } else d) db.devices;
}

unfoldable pub finish : CommandResult → ℕ → DeviceCommand → DeviceCommand
unfolding final_status result_json failure_code_of
finish result at c = record c {
  status = final_status result;
  completed_at = some at;
  result = some (result_json result);
  last_error = result.error;
  failure_code = failure_code_of result;
  publish_attempts = max c.publish_attempts (attempts_of result.publish_attempts);
}

unfoldable pub finish_command : CommandResult → ℕ → Database → Database
unfolding finish
finish_command result at db = record db {
  commands =
      map (λ c. if c.command_id == result.command_id then finish result at c else c) db.commands;
}

unfoldable pub result_event : CommandResult → ℕ → DeviceCommand → WorkspaceEvent
unfolding object_of result_json final_status
result_event result at command = record {
  event_id = result.command_id;
  type = "device.command." <> final_status result;
  source_type = "device";
  source_id = result.device_id;
  payload =
      object (
        object_of (("command", some command.payload) ∷ ("result", some (result_json result)) ∷ []));
  occurred_at = at;
}

unfoldable pub known_command : CommandResult → Option DeviceCommand → Result DeviceCommand
known_command result none = threw ("Unknown command result: " <> result.command_id)
known_command result (some command) =
    if command.device_id == result.device_id
    then ok command
    else threw ("Command result device mismatch: " <> result.command_id)

unfoldable pub reported_state : CommandResult → Result Fields
reported_state result = elim result.state [
  | none ↦ threw ("Successful command result has no state: " <> result.command_id)
  | some state ↦ ok state
]

unfoldable pub store_state : Runtime → CommandResult → Task (Unit {0})
unfolding reported_state external cast_time set_state
store_state rt result =
    if result.success
    then (do
      state ← lift (reported_state result)
      external
      at ← lift (cast_time rt result.occurred_at)
      apply (λ db. (tt, set_state result.device_id state at db)))
    else pure tt

-- The statements for a command that is not final yet.
unfoldable pub finalize : Runtime → CommandResult → DeviceCommand → Task (Ending Bool)
unfolding store_state external cast_time update finish_command result_event
finalize rt result command = do
  store_state rt result
  external
  at ← lift (cast_time rt result.occurred_at)
  apply (λ db. (tt, finish_command result at db))
  update (add_workspace_event (result_event result at command))
  pure (commit false)

-- The result is `duplicate`.
unfoldable pub apply_command_result : Runtime → CommandResult → Task Bool
unfolding transaction select known_command finalize
apply_command_result rt result = transaction (do
  found ← select (command_of result.command_id)
  command ← lift (known_command result found)
  if is_final command.status then pure (commit true) else finalize rt result command)
