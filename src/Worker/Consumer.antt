-- ===== src/Worker/Consumer.antt =====
-- worker/src/consumer/telemetry-consumer.ts: the handler of one message. When it throws, the offset
-- is not committed, and Kafka delivers the message again.
pub mod Delivery
use semantic_layer_explore.Prelude.{
  ℕ, suc, ◌+◌, String, Bool, true, false, Option, none, some, List, [], ◌∷◌, ◌++◌, ◌==◌,
  if◌then◌else◌,
}
use semantic_layer_explore.Js.Text.{includes}
use semantic_layer_explore.Js.Runtime.{Runtime}
use semantic_layer_explore.Js.Result.{Result, ok, threw}
use semantic_layer_explore.Worker.Config.{Config}
use semantic_layer_explore.Worker.Contracts.Telemetry.{parse_telemetry}
use semantic_layer_explore.Worker.Contracts.CommandResult.{parse_command_result}
use semantic_layer_explore.Worker.Store.Tables.{Position}
use semantic_layer_explore.Worker.Store.Task.{
  World, Task, ◌>>=◌, ◌>>◌, pure, throw, lift, modify, external, try_catch,
}
use semantic_layer_explore.Worker.Services.DeadLetters.{record_dead_letter}
use semantic_layer_explore.Worker.Services.Handlers.{handle_telemetry, handle_command_result}

pub record KafkaMessage : Type 0 where
  pub offset : ℕ
  pub key : Option String
  pub value : Option String

abbrev pub position_of : String → ℕ → KafkaMessage → Position
position_of topic partition message = record {
  topic = topic;
  partition = partition;
  offset = message.offset;
}

unfoldable pub classify_failure : String → String
unfolding includes
classify_failure message =
    if includes message "Invalid telemetry event"
    then "telemetry.validation"
    else if includes message "command result"
    then "command-result.validation"
    else "telemetry.processing"

module _ (config : Config) (rt : Runtime) where
  -- A topic's value goes to its handler.
  unfoldable pub dispatch : Position → String → Task (Unit {0})
  unfolding parse_telemetry parse_command_result handle_telemetry handle_command_result
  dispatch position value =
      if position.topic == config.command_result_topic
      then (do result ← lift (parse_command_result rt value); handle_command_result rt result)
      else do event ← lift (parse_telemetry rt value); handle_telemetry config rt event position

  unfoldable pub process : Position → Option String → Task (Unit {0})
  unfolding dispatch
  process position none = throw "Kafka message value is empty"
  process position (some value) = dispatch position value

  -- `commitOffsets` with the offset behind the message.
  unfoldable pub commit_offset : Position → Task (Unit {0})
  unfolding external
  commit_offset position = do
    external
    modify (λ w. record w {
      committed = w.committed ++ record position { offset = position.offset + 1 } ∷ [];
    })

  unfoldable pub each_message : String → ℕ → KafkaMessage → Task (Unit {0})
  each_message topic partition message = do
    let position = position_of topic partition message
    try_catch (process position message.value) λ error. record_dead_letter config rt (record {
      source = position;
      key = message.key;
      value = message.value;
      reason = classify_failure error;
      error = error;
    })
    commit_offset position
