-- ===== src/Worker/Contracts/CommandResult.antt =====
-- worker/src/contracts/command-result.ts
use semantic_layer_explore.Prelude.{
  String, Bool, true, false, ◌&&◌, not, Option, none, some, is_some, if◌then◌else◌,
}
use semantic_layer_explore.Js.Number.{Number}
use semantic_layer_explore.Js.Json.{
  Json, boolean, number, string, object, Fields, end, property, truthy, is_object, is_array,
  is_text, is_boolean, is_string,
}
use semantic_layer_explore.Js.Runtime.{Runtime}
use semantic_layer_explore.Js.Result.{Result, ok, threw}
use semantic_layer_explore.Worker.Contracts.Telemetry.{
  some_text, text_of, is_nonempty_text, is_count,
}

pub record CommandResult : Type 0 where
  pub command_id : String
  pub device_id : String
  pub success : Bool
  pub state : Option Fields
  pub error : Option String
  pub failure_code : Option String
  pub publish_attempts : Option Number
  pub occurred_at : String
  -- the fields of the parsed value
  pub raw : Fields

-- `typeof item.occurredAt === "string" && !Number.isNaN(Date.parse(item.occurredAt))`
unfoldable pub is_date_text : Runtime → Option Json → Bool
is_date_text rt (some (string s)) = is_some (rt.date_parse s)
is_date_text rt _ = false

unfoldable pub is_command_result : Runtime → Json → Bool
unfolding is_text is_nonempty_text is_boolean is_date_text property
is_command_result rt item =
    is_text "command-result.v1" (property "schemaVersion" item)
    && is_nonempty_text (property "commandId" item)
    && is_nonempty_text (property "deviceId" item)
    && is_boolean (property "success" item)
    && is_date_text rt (property "occurredAt" item)

-- `value === undefined`, or the value passes the test
abbrev optional : (Option Json → Bool) → Option Json → Bool
optional test none = true
optional test (some v) = test (some v)

unfoldable pub is_state : Option Json → Bool
unfolding truthy is_object is_array
is_state v = truthy v && is_object v && not (is_array v)

abbrev bool_or_false : Option Json → Bool
bool_or_false (some (boolean b)) = b
bool_or_false _ = false

abbrev fields_of : Option Json → Option Fields
fields_of (some (object fs)) = some fs
fields_of _ = none

abbrev string_of : Option Json → Option String
string_of (some (string s)) = some s
string_of _ = none

abbrev number_of : Option Json → Option Number
number_of (some (number n)) = some n
number_of _ = none

abbrev all_fields : Json → Fields
all_fields (object fs) = fs
all_fields _ = end

unfoldable pub to_command_result : Runtime → Json → CommandResult
unfolding text_of property
to_command_result rt item = record {
  command_id = some_text rt (property "commandId" item);
  device_id = some_text rt (property "deviceId" item);
  success = bool_or_false (property "success" item);
  state = fields_of (property "state" item);
  error = string_of (property "error" item);
  failure_code = string_of (property "failureCode" item);
  publish_attempts = number_of (property "publishAttempts" item);
  occurred_at = some_text rt (property "occurredAt" item);
  raw = all_fields item;
}

-- The checks from the first test on `input` on.
unfoldable pub validate_command_result : Runtime → Json → Result CommandResult
unfolding truthy is_object is_command_result is_state is_string is_nonempty_text is_count property
    to_command_result
validate_command_result rt item =
    if not (truthy (some item) && is_object (some item))
    then threw "Invalid command result event"
    else if not (is_command_result rt item)
    then threw "Invalid command result event"
    else if not (optional is_state (property "state" item))
    then threw "Invalid command result state"
    else if not (optional is_string (property "error" item))
    then threw "Invalid command result error"
    else if not (optional is_nonempty_text (property "failureCode" item))
    then threw "Invalid command result failure code"
    else if not (optional is_count (property "publishAttempts" item))
    then threw "Invalid command result publish attempts"
    else ok (to_command_result rt item)

unfoldable pub parse_command_result : Runtime → String → Result CommandResult
unfolding validate_command_result
parse_command_result rt value = elim (rt.json_parse value) [
  | none ↦ threw "Invalid command result JSON"
  | some item ↦ validate_command_result rt item
]
