-- ===== src/Worker/Contracts/Telemetry.antt =====
-- worker/src/contracts/telemetry.ts. A field that the validation does not hold to be a text is
-- read as the text that a template literal and a query's parameter make of it.
use semantic_layer_explore.Prelude.{
  String, Bool, false, ◌&&◌, ◌||◌, not, Option, none, some, ◌==◌, is_some, if◌then◌else◌, or_else,
}
use semantic_layer_explore.Js.Number.{Number, is_integer, is_negative}
use semantic_layer_explore.Js.Json.{
  Json, null, number, string, property, truthy, is_object, is_text, is_number, is_boolean,
}
use semantic_layer_explore.Js.Runtime.{Runtime}
use semantic_layer_explore.Js.Result.{Result, ok, threw}

pub record Payload : Type 0 where
  pub kind : String
  pub value : Json
  pub unit : String

pub record TelemetryEvent : Type 0 where
  pub event_id : String
  pub device_id : String
  pub sensor_id : String
  pub sequence : Number
  pub measured_at : String
  pub source : Option String
  pub payload : Payload
  pub correlation_id : Option String
  -- the parsed value itself
  pub raw : Json

-- `value.key`, `undefined` on `undefined`; the code reads a key only behind a test.
abbrev pub property_of : String → Option Json → Option Json
property_of k none = none
property_of k (some v) = property k v

unfoldable pub text_of : Runtime → Json → String
text_of rt (string s) = s
text_of rt v = rt.render v

abbrev pub some_text : Runtime → Option Json → String
some_text rt none = "undefined"
some_text rt (some v) = text_of rt v

-- `typeof n === "number" && Number.isInteger(n) && n >= 0`
unfoldable pub is_count : Option Json → Bool
is_count (some (number n)) = is_integer n && not (is_negative n)
is_count _ = false

unfoldable pub is_kind : Option Json → Bool
unfolding is_text
is_kind v =
    is_text "temperature" v || is_text "light" v || is_text "distance" v || is_text "button" v

-- `value && !Number.isNaN(Date.parse(value))`
unfoldable pub is_date : Runtime → Option Json → Bool
unfolding truthy text_of
is_date rt v = truthy v && is_some (rt.date_parse (some_text rt v))

-- `typeof value === "string" && value.length > 0`
unfoldable pub is_nonempty_text : Option Json → Bool
is_nonempty_text (some (string s)) = not (s == "")
is_nonempty_text _ = false

unfoldable pub is_payload : Option Json → Bool
unfolding truthy is_object is_kind is_number is_boolean is_nonempty_text property
is_payload p =
    truthy p
    && is_object p
    && is_kind (property_of "kind" p)
    && (is_number (property_of "value" p) || is_boolean (property_of "value" p))
    && is_nonempty_text (property_of "unit" p)

unfoldable pub is_telemetry_event : Runtime → Json → Bool
unfolding truthy is_object is_text is_count is_date is_payload property
is_telemetry_event rt value =
    truthy (some value)
    && is_object (some value)
    && is_text "telemetry.v1" (property "schemaVersion" value)
    && truthy (property "eventId" value)
    && truthy (property "deviceId" value)
    && truthy (property "sensorId" value)
    && is_count (property "sequence" value)
    && is_date rt (property "measuredAt" value)
    && is_payload (property "payload" value)

abbrev number_or_nan : Option Json → Number
number_or_nan (some (number n)) = n
number_or_nan _ = Number.nan

-- `undefined` and `null` are both nothing to `??`
abbrev pub optional_text : Runtime → Option Json → Option String
optional_text rt none = none
optional_text rt (some null) = none
optional_text rt (some v) = some (text_of rt v)

unfoldable pub to_event : Runtime → Json → TelemetryEvent
unfolding text_of property
to_event rt v = record {
  event_id = some_text rt (property "eventId" v);
  device_id = some_text rt (property "deviceId" v);
  sensor_id = some_text rt (property "sensorId" v);
  sequence = number_or_nan (property "sequence" v);
  measured_at = some_text rt (property "measuredAt" v);
  source = optional_text rt (property "source" v);
  payload = record {
    kind = some_text rt (property_of "kind" (property "payload" v));
    value = or_else (property_of "value" (property "payload" v)) null;
    unit = some_text rt (property_of "unit" (property "payload" v));
  };
  correlation_id = optional_text rt (property "correlationId" v);
  raw = v;
}

abbrev validated : Runtime → Json → Result TelemetryEvent
validated rt v =
    if is_telemetry_event rt v then ok (to_event rt v) else threw "Invalid telemetry event"

unfoldable pub parse_telemetry : Runtime → String → Result TelemetryEvent
unfolding is_telemetry_event to_event
parse_telemetry rt buffer = elim (rt.json_parse buffer) [
  | none ↦ threw (rt.syntax_message buffer)
  | some v ↦ validated rt v
]
