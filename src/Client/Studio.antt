-- ===== src/Client/Studio.antt =====
-- components/rules/rule-studio.tsx: proposing, approving, switching and deleting rules. The markup is
-- left out.
pub mod Laws
pub mod Messages
use semantic_layer_explore.Prelude.{
  String, Bool, true, false, ◌||◌, not, Option, none, some, List, [], ◌∷◌, ◌++◌, ◌==◌, any, or_else,
  if◌then◌else◌,
}
use semantic_layer_explore.Js.Json.{Json, nil, null, string, object, field, end, property, truthy}
use semantic_layer_explore.Js.Text.{◌<>◌, join}
use semantic_layer_explore.Js.Runtime.{Runtime}
use semantic_layer_explore.Js.Result.{Result, ok, threw}
use semantic_layer_explore.Client.Policy.{
  Ontology, SemanticAction, rule_approve, rule_toggle, rule_delete,
}
use semantic_layer_explore.Client.Consent.{confirm_semantic_action}
use semantic_layer_explore.Client.Action.{
  Request, Reply, Action, ◌>>=◌, ◌>>◌, pure, throw, lift, modify, or_handle, opened,
}

pub record ApiErrorBody : Type 0 where
  pub error : Option String
  pub form_errors : List String
  pub field_errors : List (String × List String)

abbrev error_or : Option String → String → String
error_or none fallback = fallback
error_or (some error) fallback = if error == "" then fallback else error

unfoldable pub field_lines : String → List String → List String
field_lines name [] = []
field_lines name (error ∷ errors) = (name <> (": " <> error)) ∷ field_lines name errors

unfoldable pub field_messages : List (String × List String) → List String
unfolding field_lines
field_messages [] = []
field_messages ((name, errors) ∷ fields) = field_lines name errors ++ field_messages fields

-- `[...new Set(messages)]`, with the values that are there already
unfoldable pub unique_from : List String → List String → List String
unfolding any
unique_from seen [] = []
unique_from seen (m ∷ ms) =
    let rest = unique_from (m ∷ seen) ms in
    let skipped = unique_from seen ms in if any (λ s. s == m) seen then skipped else m ∷ rest

unfoldable pub messages_of : ApiErrorBody → String → List String
unfolding field_messages
messages_of result fallback =
    error_or result.error fallback ∷ result.form_errors ++ field_messages result.field_errors

unfoldable pub format_api_error : ApiErrorBody → String → String
unfolding messages_of unique_from join
format_api_error result fallback = join "\n" (unique_from [] (messages_of result fallback))

pub record RuleRecord : Type 0 where
  pub id : String
  pub enabled : Bool

pub record Studio : Type 0 where
  pub instruction : String
  pub proposal : Option Json
  pub rules : Json
  pub trace : Json
  pub semantic_trace : List String
  pub remaining : Json
  pub busy : String
  pub error : String
  -- the requests sent to the API, except the one that reads the ontology
  pub sent : List Request

abbrev get_rules : Request
get_rules = record { method = "GET"; path = "/api/rules"; body = none }

abbrev post : String → Json → Request
post path body = record { method = "POST"; path = path; body = some body }

abbrev null_or : Option Json → Json
null_or none = null
null_or (some value) = value

abbrev empty_or : Option Json → Json
empty_or none = Json.array nil
empty_or (some null) = Json.array nil
empty_or (some value) = value

-- What the code outside the component gives: the API, and what the person answers to a prompt.
-- `read_error` reads the body of an error.
pub record Browser : Type 0 where
  pub runtime : Runtime
  pub fetch : Request → Reply
  pub ontology : Option (Result Ontology)
  pub confirm : String → Bool
  pub read_error : Json → ApiErrorBody

module _ (w : Browser) where
  unfoldable pub send : Request → Action Studio (Bool × Result Json)
  send request s = (opened (w.fetch request), record s { sent = s.sent ++ request ∷ [] })

  unfoldable pub refresh_rules : Action Studio (Unit {0})
  unfolding ◌>>=◌ send
  refresh_rules = do
    reply ← send get_rules
    if not reply.0
        then throw "Rules are unavailable."
        else do rules ← lift reply.1; modify (λ s. record s { rules = rules })

  abbrev pub with_consent : Result Bool → Action Studio (Unit {0}) → Action Studio (Unit {0})
  with_consent (threw e) rest s = (threw e, s)
  with_consent (ok false) rest s = (ok tt, s)
  with_consent (ok true) rest s = rest s

  -- `const approved = await confirmSemanticAction(action); if (!approved) return;`
  unfoldable pub consented : SemanticAction → Action Studio (Unit {0}) → Action Studio (Unit {0})
  unfolding confirm_semantic_action
  consented action rest s =
      let (answer, shown) = confirm_semantic_action w.runtime w.confirm w.ontology action in
      with_consent answer rest (record s { semantic_trace = shown })

  -- The `catch` and the `finally` of the handlers.
  abbrev pub settle : Result (Unit {0}) × Studio → Studio
  settle out = record (or_handle (λ e s. record s { error = e }) out) { busy = "" }

  unfoldable pub send_proposal : Action Studio (Unit {0})
  unfolding ◌>>=◌ send format_api_error property
  send_proposal s = go s
    where
      go : Action Studio (Unit {0})
      go = do
        reply ←
            send (
              post "/api/ai/rules/propose"
                (object (field "instruction" (string s.instruction) end)))
        result ← lift reply.1
        if not reply.0
            then throw
                (format_api_error (w.read_error result) "BestAiCom AI could not propose a rule.")
            else modify (λ t. record t {
              proposal = property "proposal" result;
              trace = empty_or (property "trace" result);
              remaining = null_or (property "remaining" result);
            })

  unfoldable pub propose : Studio → Studio
  unfolding send_proposal
  propose s =
      if w.runtime.trim s.instruction == "" || not (s.busy == "")
      then s
      else settle (
          send_proposal
            (record s { busy = "propose"; proposal = none; trace = empty_or none; error = "" }))

  unfoldable pub save_rule : Json → Action Studio (Unit {0})
  unfolding ◌>>=◌ send format_api_error refresh_rules
  save_rule proposal = do
    reply ← send (post "/api/rules" proposal)
    result ← lift reply.1
    if not reply.0
        then throw (format_api_error (w.read_error result) "Rule could not be saved.")
        else do modify (λ s. record s { proposal = none }); refresh_rules

  unfoldable pub approve : Studio → Studio
  unfolding consented save_rule truthy
  approve s =
      if not (truthy s.proposal) || not (s.busy == "")
      then s
      else settle (
          consented rule_approve (save_rule (null_or s.proposal))
            (record s { busy = "approve"; error = "" }))

  abbrev mutation : RuleRecord → Bool → Request
  mutation rule is_delete =
      if is_delete
      then record { method = "DELETE"; path = "/api/rules/" <> rule.id; body = none }
      else record {
        method = "POST";
        path = "/api/rules/" <> (rule.id <> (if rule.enabled then "/disable" else "/enable"));
        body = none;
      }

  unfoldable pub update_rule : Request → Action Studio (Unit {0})
  unfolding ◌>>=◌ send refresh_rules
  update_rule request = do
    reply ← send request
    if not reply.0 then throw "Rule update failed." else refresh_rules

  -- `mutateRule`, whose action is to delete a rule or to switch it.
  unfoldable pub mutate_rule : RuleRecord → Bool → Studio → Studio
  unfolding consented update_rule
  mutate_rule rule is_delete s = settle (
      consented (if is_delete then rule_delete else rule_toggle)
        (update_rule (mutation rule is_delete)) (record s { busy = rule.id; error = "" }))
