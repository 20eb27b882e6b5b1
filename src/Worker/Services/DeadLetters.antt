-- ===== src/Worker/Services/DeadLetters.antt =====
-- worker/src/dead-letter/dead-letter-service.ts. The value of a message is a text: its bytes as
-- UTF-8.
use semantic_layer_explore.Prelude.{
  ℕ, String, Bool, true, false, Option, none, some, [], ◌∷◌, ◌++◌, ◌==◌, if◌then◌else◌,
}
use mathlib.Core.Option
use semantic_layer_explore.Js.Number.{of_nat}
use semantic_layer_explore.Js.Json.{Json, number, string, object, object_of}
use semantic_layer_explore.Js.Text.{◌<>◌}
use semantic_layer_explore.Js.Runtime.{Runtime}
use semantic_layer_explore.Worker.Config.{Config}
use semantic_layer_explore.Worker.Store.Tables.{Position, DeadLetter}
use semantic_layer_explore.Worker.Store.Task.{
  Task, Message, ◌>>=◌, ◌>>◌, pure, time, gets, modify, next_uuid, external,
}
use semantic_layer_explore.Worker.Postgres.Records.{insert_dead_letter}

pub record DeadLetterInput : Type 0 where
  pub source : Position
  pub key : Option String
  pub value : Option String
  pub reason : String
  pub error : String

-- `parseJson`: nothing for a missing or empty text, and for one that does not parse.
unfoldable pub parse_json : Runtime → Option String → Option Json
parse_json rt none = none
parse_json rt (some payload) = if payload == "" then none else rt.json_parse payload

unfoldable pub to_dead_letter : Runtime → DeadLetterInput → String → ℕ → DeadLetter
unfolding parse_json
to_dead_letter rt input id failed_at = record {
  dead_letter_id = id;
  source = input.source;
  key = input.key;
  reason = input.reason;
  error_message = input.error;
  payload = input.value;
  payload_json = parse_json rt input.value;
  failed_at = failed_at;
}

unfoldable pub dead_letter_json : Runtime → DeadLetter → Json
unfolding object_of of_nat
dead_letter_json rt d = object (
    object_of (
      ("schemaVersion", some (string "dead-letter.v1"))
      ∷ ("deadLetterId", some (string d.dead_letter_id))
      ∷ ("sourceTopic", some (string d.source.topic))
      ∷ ("sourcePartition", some (number (of_nat d.source.partition)))
      ∷ ("sourceOffset", some (string (rt.decimal d.source.offset)))
      ∷ ("key", Option.map string d.key)
      ∷ ("reason", some (string d.reason))
      ∷ ("errorMessage", some (string d.error_message))
      ∷ ("payload", Option.map string d.payload)
      ∷ ("payloadJson", d.payload_json)
      ∷ ("failedAt", some (string (rt.iso d.failed_at)))
      ∷ []))

unfoldable pub dead_letter_message : Config → Runtime → DeadLetter → Message
unfolding dead_letter_json
dead_letter_message config rt d = record {
  topic = config.dead_letter_topic;
  key =
      d.source.topic
      <> (":" <> (rt.decimal d.source.partition <> (":" <> rt.decimal d.source.offset)));
  value = dead_letter_json rt d;
  headers = ("schemaVersion", "dead-letter.v1") ∷ ("reason", d.reason) ∷ [];
}

abbrev pub connect_producer : Task (Unit {0})
connect_producer = do external; modify (λ w. record w { dead_letter_connected = true })

abbrev pub connect_unless : Bool → Task (Unit {0})
connect_unless true = pure tt
connect_unless false = connect_producer

unfoldable pub publish_dead_letter : Config → Runtime → DeadLetter → Task (Unit {0})
unfolding external dead_letter_message
publish_dead_letter config rt d = do
  connected ← gets (λ w. w.dead_letter_connected)
  connect_unless connected
  external
  modify (λ w. record w { sent = w.sent ++ dead_letter_message config rt d ∷ [] })

-- `record`
unfoldable pub record_dead_letter : Config → Runtime → DeadLetterInput → Task (Unit {0})
unfolding to_dead_letter insert_dead_letter publish_dead_letter
record_dead_letter config rt input = do
  failed_at ← time
  id ← next_uuid
  let letter = to_dead_letter rt input (rt.uuid id) failed_at
  _ ← insert_dead_letter letter
  publish_dead_letter config rt letter
