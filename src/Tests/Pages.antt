-- ===== src/Tests/Pages.antt =====
-- The theorems on the rule studio and on the dashboard, at concrete inputs.
use semantic_layer_explore.Prelude.{
  String, true, false, none, some, [], ◌∷◌, ◌≡◌, ◌≢◌, ◌⊎◌, refl, inl, inr, ◌==◌, if◌then◌else◌,
}
use semantic_layer_explore.Js.Json.{nil, string, array, Fields, end}
use semantic_layer_explore.Js.Result.{ok, threw}
use semantic_layer_explore.Client.Action.{Request, Reply, response}
use semantic_layer_explore.Client.Policy.{Ontology, rule_approve, rule_delete, rule_toggle}
use semantic_layer_explore.Client.Studio.{RuleRecord, Studio, Browser, approve, mutate_rule}
use semantic_layer_explore.Client.Studio.Laws.{SentWith, studio-SentWith}
use semantic_layer_explore.Client.Dashboard.{Dashboard, DeviceButton, refresh, toggle_command}
use semantic_layer_explore.Client.Dashboard.Refresh.{SameData, IsLoaded, refresh_all_or_nothing}
use semantic_layer_explore.Client.Dashboard.Toggle.{toggle_action, toggle_command-Permits}
use semantic_layer_explore.Worker.Rule.{apply_action}
use semantic_layer_explore.Worker.Rule.Laws.{Permits}
use semantic_layer_explore.Tests.Data.{runtime}

abbrev roles : Ontology
roles = record {
  classes = [];
  properties = [];
  individuals =
      record {
        id = 1;
        name = "OpsEngineer";
        description = "";
        class_name = "Person";
        external_id = none;
      }
      ∷ [];
  relations =
      record {
        id = 1;
        subject = "OpsEngineer";
        predicate = "assignedTo";
        object = "BestAiCom Smart Workspace";
      }
      ∷ [];
}

abbrev accepts : Request → Reply
accepts request = response true (ok (string "rules"))

abbrev browser : Browser
browser = record {
  runtime = runtime;
  fetch = accepts;
  ontology = some (ok roles);
  confirm = λ prompt. true;
  read_error = λ body. record { error = none; form_errors = []; field_errors = [] };
}

abbrev studio : Studio
studio = record {
  instruction = "turn the led on above 30";
  proposal = some (string "a rule");
  rules = array nil;
  trace = array nil;
  semantic_trace = [];
  remaining = array nil;
  busy = "";
  error = "";
  sent = [];
}

abbrev rule : RuleRecord
rule = record { id = "r-1"; enabled = true }

studio-SentWith_example :
    SentWith browser rule_approve studio (approve browser studio)
    × SentWith browser rule_delete studio (mutate_rule browser rule true studio)
    × SentWith browser rule_toggle studio (mutate_rule browser rule false studio)
studio-SentWith_example = studio-SentWith browser studio rule

abbrev dashboard : Dashboard
dashboard = record {
  state = none;
  events = [];
  rules = array nil;
  operations = none;
  agent_results = array nil;
  graph_projection = none;
  graph_ontology = none;
  graph_busy = false;
  error = "";
  busy = none;
  sent = [];
}

-- The operations cannot be read.
abbrev partly : Request → Reply
partly request =
    if request.path == "/api/operations/summary"
    then response true (threw "no JSON")
    else response true (ok (string "data"))

refresh_all_or_nothing_example :
    SameData dashboard (refresh partly (λ json. []) dashboard)
    ⊎ IsLoaded partly (λ json. []) (refresh partly (λ json. []) dashboard)
refresh_all_or_nothing_example = refresh_all_or_nothing partly (λ json. []) dashboard

abbrev relay : DeviceButton
relay = record { id = "relay-1"; type = "relay"; status = "off" }

toggle_command-Permits_example :
    Permits "relay" (toggle_action relay)
    × ((next : Fields) × (apply_action "relay" end (toggle_action relay) "now" ≡ ok next))
    × (◌≡◌ {A = String} "relay" "buzzer"
        ⊎ (toggle_command (record relay { status = toggle_command relay }) ≢ toggle_command relay))
toggle_command-Permits_example = toggle_command-Permits relay end "now" (inr (inl refl))
