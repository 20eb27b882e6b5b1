-- ===== src/Worker/Writes/Consumer.antt =====
-- The services and the handler of a Kafka message keep what each write keeps.
use semantic_layer_explore.Prelude.{String, Bool, true, false, Option, none, some, [], ◌∷◌, ◌++◌}
use semantic_layer_explore.Js.Runtime.{Runtime}
use semantic_layer_explore.Worker.Config.{Config}
use semantic_layer_explore.Worker.Contracts.Telemetry.{TelemetryEvent}
use semantic_layer_explore.Worker.Contracts.CommandResult.{CommandResult}
use semantic_layer_explore.Worker.Store.Tables.{Position, DeadLetter}
use semantic_layer_explore.Worker.Store.Task.{World, Message, modify}
use semantic_layer_explore.Worker.Store.Keeps.{Keeps}
use semantic_layer_explore.Worker.Store.Frame.{keeps_rules}
use semantic_layer_explore.Worker.Services.Decision.{
  AgentResult, connect_agent_unless, correlation_or_uuid, run_trigger,
  build_telemetry_decision_result, publish_agent_result, run_for_telemetry,
}
use semantic_layer_explore.Worker.Services.DeadLetters.{
  DeadLetterInput, connect_unless, publish_dead_letter, record_dead_letter,
}
use semantic_layer_explore.Worker.Services.Handlers.{
  record_mastra_decision_failed, handle_telemetry, handle_command_result,
}
use semantic_layer_explore.Worker.Consumer.{dispatch, process}
use semantic_layer_explore.Worker.Writes.{IsKept}
use semantic_layer_explore.Worker.Writes.Calls.{
  insert_telemetry-Keeps, insert_dead_letter-Keeps, insert_audit_event-Keeps,
  apply_deterministic_rules-Keeps, apply_command_result-Keeps,
}

module _ {P : World → Type 0} (kept : IsKept P) (config : Config) (rt : Runtime) where
  sent-Keeps : (m : Message) → Keeps P (modify (λ w. record w { sent = w.sent ++ m ∷ [] }))
  unfolding modify
  sent-Keeps m = record { at = λ w h. kept.send w (w.sent ++ m ∷ []) h }

  agent-Keeps : Keeps P (modify (λ w. record w { agent_connected = true }))
  unfolding modify
  agent-Keeps = record { at = kept.connect_agent }

  producer-Keeps : Keeps P (modify (λ w. record w { dead_letter_connected = true }))
  unfolding modify
  producer-Keeps = record { at = kept.connect_dead_letter }

  connect_agent_unless-Keeps : (b : Bool) → Keeps P (connect_agent_unless b)
  connect_agent_unless-Keeps true = search keeps_rules
  connect_agent_unless-Keeps false = search (keeps_rules, kept.stable, agent-Keeps)

  connect_unless-Keeps : (b : Bool) → Keeps P (connect_unless b)
  connect_unless-Keeps true = search keeps_rules
  connect_unless-Keeps false = search (keeps_rules, kept.stable, producer-Keeps)

  publish_agent_result-Keeps : (r : AgentResult) → Keeps P (publish_agent_result config rt r)
  unfolding publish_agent_result
  publish_agent_result-Keeps r =
      search (keeps_rules, kept.stable, connect_agent_unless-Keeps, sent-Keeps) depth 8

  pub publish_dead_letter-Keeps : (d : DeadLetter) → Keeps P (publish_dead_letter config rt d)
  unfolding publish_dead_letter
  publish_dead_letter-Keeps d =
      search (keeps_rules, kept.stable, connect_unless-Keeps, sent-Keeps) depth 8

  pub record_dead_letter-Keeps : (i : DeadLetterInput) → Keeps P (record_dead_letter config rt i)
  unfolding record_dead_letter
  record_dead_letter-Keeps i =
      search (keeps_rules, kept.stable, insert_dead_letter-Keeps, publish_dead_letter-Keeps, kept)
        depth 12

  module _ (event : TelemetryEvent) where
    correlation-Keeps : (o : Option String) → Keeps P (correlation_or_uuid rt o)
    correlation-Keeps none = search (keeps_rules, kept.stable)
    correlation-Keeps (some id) = search keeps_rules

    decision-Keeps :
        (trigger : String) → Keeps P (build_telemetry_decision_result config rt event trigger)
    unfolding build_telemetry_decision_result
    decision-Keeps trigger = search (keeps_rules, kept.stable, correlation-Keeps) depth 12

    trigger-Keeps : (o : Option String) → Keeps P (run_trigger config rt event o)
    trigger-Keeps none = search keeps_rules
    trigger-Keeps (some trigger) =
        search
          (keeps_rules, decision-Keeps, insert_audit_event-Keeps, kept, publish_agent_result-Keeps)
          depth 8

    run_for_telemetry-Keeps : Keeps P (run_for_telemetry config rt event)
    unfolding run_for_telemetry
    run_for_telemetry-Keeps = search trigger-Keeps

    record_failed-Keeps : (e : String) → Keeps P (record_mastra_decision_failed rt event e)
    unfolding record_mastra_decision_failed
    record_failed-Keeps e =
        search (keeps_rules, kept.stable, insert_audit_event-Keeps, kept) depth 12

    pub handle_telemetry-Keeps : (p : Position) → Keeps P (handle_telemetry config rt event p)
    unfolding handle_telemetry
    handle_telemetry-Keeps p =
        search
          (
            keeps_rules, kept, insert_telemetry-Keeps, apply_deterministic_rules-Keeps,
            run_for_telemetry-Keeps, record_failed-Keeps,
          )
          depth 12

  handle_command_result-Keeps : (r : CommandResult) → Keeps P (handle_command_result rt r)
  unfolding handle_command_result
  handle_command_result-Keeps r = search (keeps_rules, apply_command_result-Keeps, kept)

  dispatch-Keeps : (p : Position) (value : String) → Keeps P (dispatch config rt p value)
  unfolding dispatch
  dispatch-Keeps p value =
      search (keeps_rules, handle_command_result-Keeps, handle_telemetry-Keeps) depth 8

  pub process-Keeps : (p : Position) (value : Option String) → Keeps P (process config rt p value)
  unfolding process
  process-Keeps p none = search keeps_rules
  process-Keeps p (some value) = search dispatch-Keeps
