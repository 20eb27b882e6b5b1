-- ===== src/Worker/Rule.antt =====
-- worker/src/rules/deterministic-rule.ts
pub mod Laws
pub mod Conditions
use semantic_layer_explore.Prelude.{
  String, Bool, true, false, ◌&&◌, ◌||◌, not, Option, none, some, List, [], ◌∷◌, ◌==◌, any,
  if◌then◌else◌,
}
use semantic_layer_explore.Js.Number.{Number, less, at_most, of_nat}
use semantic_layer_explore.Js.Json.{Json, number, string, Fields, strict_equal, set_field}
use semantic_layer_explore.Js.Text.{◌<>◌}
use semantic_layer_explore.Js.Result.{Result, ok, threw}
use semantic_layer_explore.Worker.Contracts.Telemetry.{TelemetryEvent}

-- The column also holds the sensor's id, by which the rules are selected.
pub record RuleCondition : Type 0 where
  pub sensor_id : String
  pub operator : String
  pub value : Json
  pub unit : String

pub record RuleAction : Type 0 where
  pub device_id : String
  pub command : String
  pub value : Option Number

-- The ordered operators, on two numbers; any other name is false.
unfoldable pub compare_numbers : String → Number → Number → Bool
unfolding less at_most
compare_numbers operator actual expected =
    if operator == "gt"
    then less expected actual
    else if operator == "gte"
    then at_most expected actual
    else if operator == "lt"
    then less actual expected
    else operator == "lte" && at_most actual expected

unfoldable pub compare_values : String → Json → Json → Bool
compare_values operator (number actual) (number expected) = compare_numbers operator actual expected
compare_values operator _ _ = false

unfoldable pub matches_condition : RuleCondition → TelemetryEvent → Bool
unfolding compare_values strict_equal
matches_condition condition event =
    if not (condition.unit == event.payload.unit)
    then false
    else if condition.operator == "eq"
    then strict_equal event.payload.value condition.value
    else compare_values condition.operator event.payload.value condition.value

-- `commands[deviceType]`, `undefined` for other types.
unfoldable pub commands_of : String → Option (List String)
commands_of type =
    if type == "led"
    then some ("on" ∷ "off" ∷ [])
    else if type == "relay"
    then some ("on" ∷ "off" ∷ [])
    else if type == "servo"
    then some ("set-angle" ∷ "off" ∷ [])
    else if type == "buzzer"
    then some ("beep" ∷ "off" ∷ [])
    else none

abbrev lists : Option (List String) → String → Bool
lists none command = false
lists (some names) command = any (λ name. name == command) names

-- `commands[deviceType]?.includes(command)`
unfoldable pub is_allowed : String → String → Bool
unfolding commands_of any
is_allowed type command = lists (commands_of type) command

-- `value === undefined || value < 0 || value > 180`
unfoldable pub is_bad_angle : Option Number → Bool
unfolding less of_nat
is_bad_angle none = true
is_bad_angle (some v) = less v (of_nat 0) || less (of_nat 180) v

abbrev with_angle : Option Number → Fields → Fields
with_angle none state = state
with_angle (some v) state = set_field "angle" (number v) state

unfoldable pub next_state : Fields → RuleAction → String → Fields
unfolding set_field
next_state current action triggered_at =
    let state = set_field "lastCommandAt" (string triggered_at) current in
    if action.command == "set-angle"
    then with_angle action.value (set_field "status" (string "on") state)
    else if action.command == "beep"
    then set_field "status" (string "off") state
    else set_field "status" (string action.command) state

unfoldable pub apply_action : String → Fields → RuleAction → String → Result Fields
unfolding is_allowed is_bad_angle next_state
apply_action device_type current action triggered_at =
    if not (is_allowed device_type action.command)
    then threw (action.command <> (" is not allowed for " <> device_type))
    else if action.command == "set-angle" && is_bad_angle action.value
    then threw "Servo angle must be between 0 and 180"
    else ok (next_state current action triggered_at)
