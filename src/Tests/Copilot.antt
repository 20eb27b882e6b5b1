-- ===== src/Tests/Copilot.antt =====
-- The theorems on the copilot's page, at concrete runs.
use semantic_layer_explore.Prelude.{
  ℕ, true, false, Option, none, some, [], ◌∷◌, ◌≡◌, ◌⊎◌, refl, eqb, if◌then◌else◌,
}
use semantic_layer_explore.Js.Json.{Json, nil, string, array, null}
use semantic_layer_explore.Js.Result.{Result, ok, threw}
use semantic_layer_explore.Client.Action.{response}
use semantic_layer_explore.Client.Policy.{Ontology}
use semantic_layer_explore.Client.Copilot.{
  Copilot, Browser, ask, explain_event, Explanation, nothing_explained, start_run, end_run, Shows,
  at_first, starts, ends,
}
use semantic_layer_explore.Client.Copilot.Laws.{
  SentWith, IsCurrent, copilot-SentWith, Shows-IsCurrent,
}
use semantic_layer_explore.Tests.Data.{runtime}

abbrev roles : Ontology
roles = record {
  classes = [];
  properties = [];
  individuals =
      record {
        id = 1;
        name = "InspectionTeam";
        description = "";
        class_name = "Team";
        external_id = none;
      }
      ∷ [];
  relations =
      record { id = 1; subject = "InspectionTeam"; predicate = "worksFor"; object = "BestAiCom" }
      ∷ [];
}

abbrev browser : Browser
browser = record {
  runtime = runtime;
  fetch = λ request. response true (ok (string "answer"));
  ontology = some (ok roles);
  confirm = λ prompt. true;
}

abbrev page : Copilot
page = record {
  question = "why is the led on?";
  answer = string "";
  trace = array nil;
  semantic_trace = [];
  loading = false;
  remaining = null;
  error = "";
  sent = [];
}

copilot-SentWith_example :
    SentWith browser page (ask browser page)
    × SentWith browser page (explain_event browser "ev-1" page).1
    × ((ask browser page ≡ page) ⊎ ((ask browser page).loading ≡ false))
copilot-SentWith_example = copilot-SentWith browser page "ev-1"

-- The first of two runs fails, the second one has a result.
abbrev outcome : ℕ → Result (Option Json)
outcome run = if eqb run 1 then threw "timeout" else ok (some (string "because"))

abbrev both : Explanation
both = end_run 1 (outcome 1) (end_run 2 (outcome 2) (start_run 2 (start_run 1 nothing_explained)))

-- The first run ends last, and does not show.
both_run : Shows outcome both
both_run = ends _ 1 (ends _ 2 (starts _ 2 (starts _ 1 at_first)))

both_result : both.result ≡ some (string "because")
unfolding end_run start_run
both_result = refl

Shows-IsCurrent_example : IsCurrent outcome both.current (string "because")
Shows-IsCurrent_example = Shows-IsCurrent outcome both (string "because") both_run both_result
