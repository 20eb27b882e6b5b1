-- ===== src/Api/Propose/Laws.antt =====
-- What a proposal has behind it, whatever the provider answers.
use semantic_layer_explore.Prelude.{
  ℕ, suc, ◌+◌, ◌≤◌, ◌≡◌, refl, sym, ◌∙◌, String, Option, none, some, List, [], ◌∷◌, ◌==◌, find,
  length, arith, Bool-cases, inl, inr,
}
use semantic_layer_explore.Js.Json.{Json}
use semantic_layer_explore.Js.Runtime.{Runtime}
use semantic_layer_explore.Js.Result.{Result, ok, threw}
use semantic_layer_explore.Api.Rules.{
  RuleInput, SensorTarget, DeviceTarget, Checked, passed, refused, validate_rule_targets,
}
use semantic_layer_explore.Api.Rules.Laws.{IsTarget, validate_rule_targets-IsTarget_iff}
use semantic_layer_explore.Api.Chat.{
  LlmProvider, GenerateWithToolsResult, Fetched, Session, Out, find_path, tool_members, call_path,
  call_application_tool, push_assistant, started,
}
use semantic_layer_explore.Api.Propose.{
  Outcome, proposed, failed, normalize_proposal, tool_names, first_name, request_tool, answered,
  called, generated, ask_tools, checked, validated, propose, compiled, compile_rule,
}

-- A call that ends has asked so often, one that throws no more often than that.
abbrev Asked : {A : Type 0} → ℕ → Out A → Type 0
Asked n (ok a, s) = s.asked ≡ n
Asked n (threw e, s) = s.asked ≤ n

push_assistant-asked : (m : Option Json) (s : Session) → (push_assistant m s).asked ≡ s.asked
push_assistant-asked none s = refl
push_assistant-asked (some m) s = refl

module _ (fetch : String → Fetched) where
  path-Asked :
      (name : String) (o : Option String) (s : Session) (r : Result Json) (t : Session)
      → call_path fetch name o s ≡ (r, t)
      → t.asked ≡ s.asked
  path-Asked name none s r t h = cc h
  path-Asked name (some path) s r t h = cc h

  tool-Asked :
      (name : String) (s : Session) → (call_application_tool fetch name s).1.asked ≡ s.asked
  unfolding call_application_tool
  tool-Asked name s =
      path-Asked name (find_path name tool_members) s (call_application_tool fetch name s).0
        (call_application_tool fetch name s).1 refl

  module _ (provider : LlmProvider) where
    -- A step that asks so many times more.
    abbrev Asks : ℕ → (Session → Out (Unit {0})) → Type 0
    Asks n f = (s : Session) → Asked (s.asked + n) (f s)

    answered-Asked :
        (n : ℕ) (next : Session → Out (Unit {0})) (k : ℕ) (name : String) (q : Out Json)
        → Asks n next
        → q.1.asked ≡ k
        → Asked (k + n) (answered fetch provider next name q)
    answered-Asked n next k name (threw e, s) then h = ground arith
    answered-Asked n next k name (ok json, s) then h = rw (sym h) (then _)

    called-Asked :
        (n : ℕ) (next : Session → Out (Unit {0})) (wanted : String) (r : GenerateWithToolsResult)
        (name : String) (s : Session)
        → Asks n next
        → Asked (s.asked + n) (called fetch provider next wanted r name s)
    called-Asked n next wanted r name s then = elim (Bool-cases (name == "")) [
      | inl none_called ↦ rw none_called (omega arith)
      | inr some_called ↦ rw some_called (
          answered-Asked n next s.asked name _ then
            (tool-Asked name _ ∙ push_assistant-asked r.assistant_message s))
    ]

    generated-Asked :
        (n : ℕ) (next : Session → Out (Unit {0})) (wanted : String)
        (r : Result GenerateWithToolsResult) (s : Session)
        → Asks n next
        → Asked (s.asked + n) (generated fetch provider next wanted r s)
    generated-Asked n next wanted (threw e) s then = omega arith
    generated-Asked n next wanted (ok r) s then =
        called-Asked n next wanted r (first_name r.tool_calls) s then

    ask_tools-Asked : (names : List String) → Asks (length names) (ask_tools fetch provider names)
    unfolding ask_tools
    ask_tools-Asked [] s = omega arith
    ask_tools-Asked (wanted ∷ names) s =
        let one_more : s.asked + suc (length names) ≡ s.asked + 1 + length names = omega arith in
        rw one_more (
          generated-Asked (length names) _ wanted
            (provider.generate_with_tools (request_tool fetch provider wanted s))
            (record s { asked = s.asked + 1 }) (ask_tools-Asked names))

-- Both lookups have answered, and the rule's targets are among the answers and permit it.
abbrev pub HasTargets : Option (List SensorTarget) → Option (List DeviceTarget) → RuleInput → Type 0
HasTargets sensors devices input =
    (ss : List SensorTarget) × (ds : List DeviceTarget) × (sensors ≡ some ss)
    × (devices ≡ some ds)
    × IsTarget input (find (λ s. s.id == input.condition.sensor_id) ss)
        (find (λ d. d.id == input.action.device_id) ds)

passed-HasTargets :
    (input : RuleInput) (ss : Option (List SensorTarget)) (ds : Option (List DeviceTarget))
    → validate_rule_targets input ss ds ≡ passed
    → HasTargets ss ds input
unfolding validate_rule_targets
passed-HasTargets input none ds e = cc e
passed-HasTargets input (some xs) none e = cc e
passed-HasTargets input (some xs) (some ys) e =
    (xs, ys, refl, refl, (validate_rule_targets-IsTarget_iff input xs ys).0.0 e)

module _ (sensors : Option (List SensorTarget)) (devices : Option (List DeviceTarget)) where
  module _ (rt : Runtime) (parse : Json → Option RuleInput) where
    abbrev pub Proposed : Result Json → Outcome → Type 0
    Proposed r (proposed input) =
        (raw : Json) × (r ≡ ok raw)
        × (parse (normalize_proposal rt raw) ≡ some input)
        × HasTargets sensors devices input
    Proposed r (failed error) = Unit

    checked-Proposed :
        (raw : Json) (input : RuleInput) (c : Checked)
        → validate_rule_targets input sensors devices ≡ c
        → parse (normalize_proposal rt raw) ≡ some input
        → Proposed (ok raw) (checked input c)
    checked-Proposed raw input (refused e) h parsed = tt
    checked-Proposed raw input passed h parsed =
        (raw, refl, parsed, passed-HasTargets input sensors devices h)

    validated-Proposed :
        (raw : Json) (o : Option RuleInput)
        → parse (normalize_proposal rt raw) ≡ o
        → Proposed (ok raw) (validated sensors devices o)
    validated-Proposed raw none h = tt
    validated-Proposed raw (some input) h = checked-Proposed raw input _ refl h

    propose-Proposed : (r : Result Json) → Proposed r (propose sensors devices rt parse r)
    unfolding propose
    propose-Proposed (threw e) = tt
    propose-Proposed (ok raw) = validated-Proposed raw _ refl

    module _ (fetch : String → Fetched) (provider : LlmProvider) where
      module _ (generate_structured : Session → Result Json) where
        abbrev pub Compiled : Outcome × Session → Type 0
        Compiled (proposed input, s) =
            (s.asked ≡ 3) × Proposed (generate_structured s) (proposed input)
        Compiled (failed error, s) = s.asked ≤ 3

        outcome-Compiled :
            (o : Outcome) (s : Session)
            → s.asked ≡ 3
            → Proposed (generate_structured s) o
            → Compiled (o, s)
        outcome-Compiled (proposed input) s h p = (h, p)
        outcome-Compiled (failed error) s h p = omega arith

        compiled-Compiled :
            (out : Out (Unit {0}))
            → Asked 3 out
            → Compiled (compiled sensors devices rt parse fetch provider generate_structured out)
        compiled-Compiled (threw e, s) h = h
        compiled-Compiled (ok x, s) h =
            outcome-Compiled _ s h (propose-Proposed (generate_structured s))

        -- Whatever the provider answers, a proposed rule comes after three requests for tools, it
        -- is what the schema makes of the normalised answer, both lookups have answered, and its
        -- sensor and device are among them, with the condition's unit and a type of device that
        -- permits the action. Without a proposal there were at most three requests.
        pub compile_rule-Compiled :
            (instruction : String)
            → Compiled (
                compile_rule sensors devices rt parse fetch provider generate_structured
                  instruction)
        unfolding compile_rule
        compile_rule-Compiled instruction =
            compiled-Compiled (ask_tools fetch provider tool_names (started instruction))
              (ask_tools-Asked fetch provider tool_names (started instruction))
