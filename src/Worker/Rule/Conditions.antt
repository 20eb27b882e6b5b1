-- ===== src/Worker/Rule/Conditions.antt =====
-- When a reading satisfies the condition of a rule, as a relation beside the code's ladder of tests
-- (`matchesCondition` of worker/src/rules/deterministic-rule.ts).
use semantic_layer_explore.Prelude.{
  String, ◌≡◌, ◌↔◌, ◌⊎◌, inl, inr, Bool, true, ◌==◌, eq_iff, arith, if◌then◌else◌, Bool-cases,
}
use semantic_layer_explore.Js.Number.{Number, less, at_most, same, finite}
use semantic_layer_explore.Js.Json.{Json, number, strict_equal}
use semantic_layer_explore.Worker.Contracts.Telemetry.{TelemetryEvent}
use semantic_layer_explore.Worker.Rule.{
  RuleCondition, compare_numbers, compare_values, matches_condition,
}

-- A reading and a threshold under the five operators. Only `eq` compares values other than numbers.
pub data Satisfies (operator : String) : Json → Json → Type 0 where
  above :
      {actual expected : Number}
      → operator ≡ "gt"
      → less expected actual ≡ true
      → Satisfies operator (number actual) (number expected)
  not_below :
      {actual expected : Number}
      → operator ≡ "gte"
      → (less expected actual ≡ true) ⊎ (same expected actual ≡ true)
      → Satisfies operator (number actual) (number expected)
  below :
      {actual expected : Number}
      → operator ≡ "lt"
      → less actual expected ≡ true
      → Satisfies operator (number actual) (number expected)
  not_above :
      {actual expected : Number}
      → operator ≡ "lte"
      → (less actual expected ≡ true) ⊎ (same actual expected ≡ true)
      → Satisfies operator (number actual) (number expected)
  equal :
      {actual expected : Json}
      → operator ≡ "eq"
      → strict_equal actual expected ≡ true
      → Satisfies operator actual expected

at_most_split : (a b : Number) → at_most a b ≡ true → (less a b ≡ true) ⊎ (same a b ≡ true)
unfolding at_most less same
at_most_split (finite a) (finite b) h = ground arith
at_most_split _ _ h = ground arith

at_most_join : (a b : Number) → (less a b ≡ true) ⊎ (same a b ≡ true) → at_most a b ≡ true
unfolding at_most less same
at_most_join (finite a) (finite b) h = ground arith
at_most_join _ _ h = ground arith

numbers_sound :
    (operator : String) (a b : Number)
    → compare_numbers operator a b ≡ true
    → Satisfies operator (number a) (number b)
unfolding compare_numbers
numbers_sound operator a b h = elim (Bool-cases (operator == "gt")) [
  | inl gt ↦ above ((eq_iff _ _).0 gt) (ground arith)
  | inr not_gt ↦ elim (Bool-cases (operator == "gte")) [
    | inl gte ↦ not_below ((eq_iff _ _).0 gte) (at_most_split b a (ground arith))
    | inr not_gte ↦ elim (Bool-cases (operator == "lt")) [
      | inl lt ↦ below ((eq_iff _ _).0 lt) (ground arith)
      | inr other ↦
          not_above (ground (arith, eq_iff operator "lte")) (at_most_split a b (ground arith))
    ]
  ]
]

values_sound :
    (operator : String) (a b : Json) → compare_values operator a b ≡ true → Satisfies operator a b
unfolding compare_values
values_sound operator (number a) (number b) h = numbers_sound operator a b h
values_sound operator _ _ h = cc

abbrev code_test : String → Json → Json → Bool
code_test operator a b = if operator == "eq" then strict_equal a b else compare_values operator a b

test_complete :
    {operator : String} {a b : Json} → Satisfies operator a b → code_test operator a b ≡ true
unfolding compare_values compare_numbers
test_complete (above e h) = rw e h
test_complete (not_below {actual} {expected} e h) = rw e (at_most_join expected actual h)
test_complete (below e h) = rw e h
test_complete (not_above {actual} {expected} e h) = rw e (at_most_join actual expected h)
test_complete (equal e h) = rw e h

test_sound :
    (operator : String) (a b : Json) → code_test operator a b ≡ true → Satisfies operator a b
test_sound operator a b h = elim (Bool-cases (operator == "eq")) [
  | inl eq ↦ equal ((eq_iff _ _).0 eq) (ground arith)
  | inr other ↦ values_sound operator a b (ground arith)
]

-- A condition matches an event exactly when the units are the same text and the reading satisfies
-- the operator: `gt` and `lt` strictly, `gte` and `lte` also at the same number, on two numbers
-- alone, and `eq` on any two values that are strictly equal. No other operator ever matches.
pub matches_condition-Satisfies_iff :
    (condition : RuleCondition) (event : TelemetryEvent)
    → (matches_condition condition event ≡ true) ↔ (
        (condition.unit ≡ event.payload.unit)
        × Satisfies condition.operator event.payload.value condition.value)
unfolding matches_condition
matches_condition-Satisfies_iff condition event = (
  λ h. (
    ground (arith, eq_iff condition.unit event.payload.unit),
    test_sound condition.operator event.payload.value condition.value (ground arith),
  ),
  λ (unit, s). ground (arith, eq_iff condition.unit event.payload.unit, test_complete s),
)
