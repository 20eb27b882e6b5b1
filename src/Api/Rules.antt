-- ===== src/Api/Rules.antt =====
-- `validateRuleTargets` of lib/services/rules.ts, and how its errors are answered
-- (lib/server/validation.ts). The types of devices are those of the database, none of which is the
-- name of a member that every JavaScript object has.
pub mod Laws
use semantic_layer_explore.Prelude.{
  ℕ, String, Bool, true, false, ◌&&◌, ◌||◌, not, Option, none, some, List, [], ◌∷◌, ◌==◌, any, find,
  is_some, if◌then◌else◌,
}
use semantic_layer_explore.Js.Number.{Number, less, of_nat}
use semantic_layer_explore.Js.Text.{◌<>◌}
use semantic_layer_explore.Worker.Rule.{RuleCondition, RuleAction}

-- The part of a rule's input that names its sensor and its device.
pub record RuleInput : Type 0 where
  pub condition : RuleCondition
  pub action : RuleAction

pub record SensorTarget : Type 0 where
  pub id : String
  pub unit : String

pub record DeviceTarget : Type 0 where
  pub id : String
  pub type : String

-- An `InputValidationError`, and any other `Error`.
pub data ApiError : Type 0 where
  invalid_input : String → ApiError
  failure : String → ApiError

pub data Checked : Type 0 where
  passed : Checked
  refused : ApiError → Checked

abbrev then_check : Bool → ApiError → Checked → Checked
then_check true error rest = refused error
then_check false error rest = rest

unfoldable pub allowed_commands : String → Option (List String)
allowed_commands type =
    if type == "led"
    then some ("on" ∷ "off" ∷ [])
    else if type == "relay"
    then some ("on" ∷ "off" ∷ [])
    else if type == "servo"
    then some ("set-angle" ∷ "off" ∷ [])
    else if type == "buzzer"
    then some ("beep" ∷ "off" ∷ [])
    else none

abbrev includes_command : Option (List String) → String → Bool
includes_command none command = false
includes_command (some names) command = any (λ name. name == command) names

abbrev is_out_of_range : Option Number → Bool
is_out_of_range none = true
is_out_of_range (some v) = less v (of_nat 0) || less (of_nat 180) v

unfoldable pub check_action : RuleAction → DeviceTarget → Checked
unfolding allowed_commands any less of_nat
check_action action device =
    then_check (not (includes_command (allowed_commands device.type) action.command))
      (invalid_input (action.command <> (" is not allowed for " <> (device.type <> "."))))
      (then_check (action.command == "set-angle" && is_out_of_range action.value)
        (invalid_input "Servo angle must be between 0 and 180.") passed)

abbrev wrong_unit : RuleInput → SensorTarget → String
wrong_unit input sensor =
    "Sensor "
    <> (sensor.id <> (" uses " <> (sensor.unit <> (", not " <> (input.condition.unit <> ".")))))

abbrev check_targets : RuleInput → Option SensorTarget → Option DeviceTarget → Checked
check_targets input none device =
    refused (invalid_input ("Unknown or disabled sensor: " <> input.condition.sensor_id))
check_targets input (some sensor) none =
    refused (invalid_input ("Unknown or disabled device: " <> input.action.device_id))
check_targets input (some sensor) (some device) =
    then_check (not (sensor.unit == input.condition.unit)) (invalid_input (wrong_unit input sensor))
      (check_action input.action device)

-- The two arguments are the answers of the API, `none` where one is not `ok`.
unfoldable pub validate_rule_targets :
    RuleInput → Option (List SensorTarget) → Option (List DeviceTarget) → Checked
unfolding check_action find
validate_rule_targets input none devices = refused (failure "Operational target lookup failed")
validate_rule_targets input (some sensors) none =
    refused (failure "Operational target lookup failed")
validate_rule_targets input (some sensors) (some devices) =
    check_targets input (find (λ s. s.id == input.condition.sensor_id) sensors)
      (find (λ d. d.id == input.action.device_id) devices)

-- The status of the response to an error, and its message.
unfoldable pub error_response : ApiError → ℕ × String
error_response (invalid_input message) = (400, message)
error_response (failure message) = (500, message)
