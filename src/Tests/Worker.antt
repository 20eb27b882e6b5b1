-- ===== src/Tests/Worker.antt =====
-- The worker's theorems at the workspace of Tests/Data.
use semantic_layer_explore.Prelude.{
  ℕ, ◌+◌, ◌≡◌, ◌≢◌, ◌↔◌, refl, ap, Bool, true, false, ◌&&◌, not, some, List, [], ◌∷◌, any, filter,
  length, leb, ltb, min, ◌==◌, if◌then◌else◌,
}
use mathlib.Core.Option
use semantic_layer_explore.Js.Json.{string, number, Fields, end, field, get_field}
use semantic_layer_explore.Js.Result.{ok}
use semantic_layer_explore.Worker.Rule.{
  matches_condition, apply_action, next_state, is_allowed, commands_of,
}
use semantic_layer_explore.Worker.Rule.Laws.{
  Permits, apply_action-Permits_iff, apply_action-state, apply_action-other_keys,
}
use semantic_layer_explore.Worker.Rule.Conditions.{Satisfies, matches_condition-Satisfies_iff}
use semantic_layer_explore.Worker.Store.Task.{World}
use semantic_layer_explore.Worker.Consumer.{each_message}
use semantic_layer_explore.Worker.Consumer.Delivery.{Delivered, each_message-delivers}
use semantic_layer_explore.Worker.History.{handled, Reach, here, then_step}
use semantic_layer_explore.Worker.History.Once.{Reach-stored_once}
use semantic_layer_explore.Worker.Postgres.Telemetry.{is_seen, insert_telemetry}
use semantic_layer_explore.Worker.Postgres.Telemetry.Stored.{Stored, insert_telemetry-Stored}
use semantic_layer_explore.Worker.Postgres.Rules.{apply_deterministic_rules}
use semantic_layer_explore.Worker.Postgres.Rules.Laws.{Applied, apply_deterministic_rules-Applied}
use semantic_layer_explore.Worker.Postgres.Commands.{apply_command_result}
use semantic_layer_explore.Worker.Postgres.Commands.Laws.{Ended, apply_command_result-Ended}
use semantic_layer_explore.Worker.Postgres.Retention.{purge, oldest, remove_at, cleanup_retention}
use semantic_layer_explore.Worker.Postgres.Retention.Purge.{purge-exact, purge-oldest_first}
use semantic_layer_explore.Worker.Postgres.Retention.Laws.{Cleaned, cleanup_retention-Cleaned}
use semantic_layer_explore.Tests.Data.{
  runtime, config, retention, action, rule_row, event, database, world, position, message,
  command_result,
}

each_message-delivers_example :
    Delivered config runtime "telemetry.raw" 0 message world
      (each_message config runtime "telemetry.raw" 0 message world)
each_message-delivers_example = each_message-delivers config runtime "telemetry.raw" 0 message world

-- The world behind the message.
abbrev handled_world : World
handled_world = (each_message config runtime "telemetry.raw" 0 message world).1

-- One message that is handled.
one_message : Reach config runtime world handled_world
one_message = then_step world world handled_world (here world) (
    handled "telemetry.raw" 0 message
      (each_message config runtime "telemetry.raw" 0 message world).0 world handled_world refl)

seen_before : is_seen "e-0" database ≡ true
unfolding any
seen_before = refl

Reach-stored_once_example :
    ((insert_telemetry runtime (record event { event_id = "e-0" }) position handled_world).1.db
      ≡ handled_world.db)
    × ((insert_telemetry runtime (record event { event_id = "e-0" }) position handled_world).0
        ≢ ok false)
Reach-stored_once_example =
    Reach-stored_once config runtime (record event { event_id = "e-0" }) position seen_before
      one_message

apply_deterministic_rules-Applied_example :
    Applied runtime event world.now world.db
      (apply_deterministic_rules runtime event world).0
      (apply_deterministic_rules runtime event world).1.db
apply_deterministic_rules-Applied_example = apply_deterministic_rules-Applied runtime event world

apply_command_result-Ended_example :
    Ended runtime command_result world.db
      (apply_command_result runtime command_result world).0
      (apply_command_result runtime command_result world).1.db
apply_command_result-Ended_example = apply_command_result-Ended runtime command_result world

insert_telemetry-Stored_example :
    Stored runtime event position world.now world.db
      (insert_telemetry runtime event position world).0
      (insert_telemetry runtime event position world).1.db
insert_telemetry-Stored_example = insert_telemetry-Stored runtime event position world

cleanup_retention-Cleaned_example :
    Cleaned retention world.now world.lock_taken world.db
      (cleanup_retention retention world).0
      (cleanup_retention retention world).1.db
cleanup_retention-Cleaned_example = cleanup_retention-Cleaned retention world

-- Rows that are their own times, expired below 10.
abbrev below_ten : ℕ → Bool
below_ten t = ltb t 10

abbrev times : List ℕ
times = 7 ∷ 30 ∷ 3 ∷ 9 ∷ []

purge-exact_example :
    (length (purge (λ t. t) below_ten 2 times) + min 2 (length (filter below_ten times))
      ≡ length times)
    × (filter (λ t. not (below_ten t)) (purge (λ t. t) below_ten 2 times)
        ≡ filter (λ t. not (below_ten t)) times)
purge-exact_example = purge-exact (λ t. t) below_ten 2 times

one_left : any (λ t. below_ten t && leb t 9) (purge (λ t. t) below_ten 2 times) ≡ true
unfolding purge oldest remove_at any
one_left = refl

purge-oldest_first_example :
    filter (λ t. below_ten t && not (leb t 9)) (purge (λ t. t) below_ten 2 times)
    ≡ filter (λ t. below_ten t && not (leb t 9)) times
purge-oldest_first_example = purge-oldest_first (λ t. t) below_ten 9 2 times one_left

apply_action-Permits_iff_example :
    ((s : Fields) × (apply_action "led" end action "now" ≡ ok s)) ↔ Permits "led" action
apply_action-Permits_iff_example = apply_action-Permits_iff "led" end action "now"

matches_condition-Satisfies_iff_example : (matches_condition rule_row.condition event ≡ true) ↔ (
    (rule_row.condition.unit ≡ event.payload.unit)
    × Satisfies rule_row.condition.operator event.payload.value rule_row.condition.value)
matches_condition-Satisfies_iff_example = matches_condition-Satisfies_iff rule_row.condition event

-- The old state of the led, and the state behind the action.
abbrev dimmed : Fields
dimmed = field "level" (string "low") end

led_on : apply_action "led" dimmed action "now" ≡ ok (next_state dimmed action "now")
unfolding apply_action is_allowed commands_of any
led_on = refl

apply_action-state_example :
    (get_field "lastCommandAt" (next_state dimmed action "now") ≡ some (string "now"))
    × (get_field "status" (next_state dimmed action "now")
        ≡ some (
            string (
              if action.command == "set-angle"
              then "on"
              else if action.command == "beep"
              then "off"
              else action.command)))
    × (get_field "angle" (next_state dimmed action "now") ≡ (
        if action.command == "set-angle"
        then Option.map number action.value
        else get_field "angle" dimmed))
apply_action-state_example =
    apply_action-state "led" dimmed action "now" (next_state dimmed action "now") led_on

apply_action-other_keys_example :
    get_field "level" (next_state dimmed action "now") ≡ get_field "level" dimmed
apply_action-other_keys_example =
    apply_action-other_keys "led" dimmed action "now" (next_state dimmed action "now") "level"
      led_on (λ e. cc (ap (λ k. k == "level") e)) (λ e. cc (ap (λ k. k == "level") e))
      (λ e. cc (ap (λ k. k == "level") e))
