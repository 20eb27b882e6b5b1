-- ===== src/Api/Rules/Laws.antt =====
-- A rule that the web application lets through is one that the worker can carry out
-- (`validateRuleTargets` against `applyAction` of worker/src/rules/deterministic-rule.ts).
use semantic_layer_explore.Prelude.{
  String, ◌≡◌, ◌↔◌, ◌≢◌, refl, ap, sym, ◌∙◌, Bool, true, false, ◌&&◌, not, Option, none, some, List,
  ◌==◌, eq_iff, arith, find, if◌then◌else◌, Bool-cases, inl, inr,
}
use mathlib.Core.Path.{subst}
use semantic_layer_explore.Js.Number.{Number}
use semantic_layer_explore.Js.Json.{Fields, end}
use semantic_layer_explore.Js.Result.{ok, threw}
use semantic_layer_explore.Worker.Rule.{
  RuleAction, commands_of, is_allowed, is_bad_angle, apply_action,
}
use semantic_layer_explore.Worker.Rule.Laws.{Permits, apply_action-Permits_iff}
use semantic_layer_explore.Api.Rules.{
  RuleInput, ApiError, then_check, is_out_of_range, includes_command, SensorTarget, DeviceTarget,
  passed, allowed_commands, check_action, validate_rule_targets, check_targets,
}

-- Two tests in a row, as each of the components ends them.
same_ends :
    (a b : Bool) (e f : ApiError) (x y : String) (t : Fields)
    → (then_check a e (then_check b f passed) ≡ passed)
      ↔ ((s : Fields) × ((if a then threw x else if b then threw y else ok t) ≡ ok s))
same_ends true b e f x y t = (λ h. cc h, λ (s, h). cc h)
same_ends false true e f x y t = (λ h. cc h, λ (s, h). cc h)
same_ends false false e f x y t = ((λ h. (t, refl)), λ h. refl)

same_angle : (v : Option Number) → is_out_of_range v ≡ is_bad_angle v
unfolding is_bad_angle
same_angle none = refl
same_angle (some v) = refl

-- The two components' tables of commands agree.
same_table :
    (type command : String)
    → includes_command (allowed_commands type) command ≡ is_allowed type command
unfolding allowed_commands is_allowed commands_of
same_table type command = refl

check_action-Permits :
    (action : RuleAction) (device : DeviceTarget)
    → (check_action action device ≡ passed) ↔ Permits device.type action
unfolding check_action apply_action
check_action-Permits action device =
    let ends =
      same_ends (not (is_allowed device.type action.command))
        (action.command == "set-angle" && is_bad_angle action.value) in
    let permits = apply_action-Permits_iff device.type end action "" in
    rw (same_table device.type action.command, same_angle action.value)
      (λ h. permits.0 ((ends _ _ _ _ _).0 h), λ p. (ends _ _ _ _ _).1 (permits.1 p))

-- A sensor and a device that the input names, with the unit and the type that its condition and its
-- action need.
abbrev pub IsTarget : RuleInput → Option SensorTarget → Option DeviceTarget → Type 0
IsTarget input sensor device =
    (s : SensorTarget) × (d : DeviceTarget) × (sensor ≡ some s)
    × (device ≡ some d)
    × (s.unit ≡ input.condition.unit)
    × Permits d.type input.action

abbrev PermitsAny : RuleInput → Option DeviceTarget → Type 0
PermitsAny input none = ⊥
PermitsAny input (some t) = Permits t.type input.action

check_targets-IsTarget :
    (input : RuleInput) (sensor : Option SensorTarget) (device : Option DeviceTarget)
    → (check_targets input sensor device ≡ passed) ↔ IsTarget input sensor device
check_targets-IsTarget input none device = (λ h. cc h, λ (s, d, e, _, _, _). cc e)
check_targets-IsTarget input (some s) none = (λ h. cc h, λ (t, d, _, e, _, _). cc e)
check_targets-IsTarget input (some s) (some d) =
    elim (Bool-cases (s.unit == input.condition.unit)) [
      | inl same ↦ rw same (
        λ h. (s, d, refl, refl, (eq_iff _ _).0 same, (check_action-Permits input.action d).0 h),
        λ (t, u, _, e, _, p). (check_action-Permits input.action d).1 (permits_same p (sym e)),
      )
      | inr other ↦
          rw other
            (λ h. cc h, λ (t, u, e, _, unit, _). absurd (units_differ other (ap unit_of e ∙ unit)))
    ]
  where
    permits_same :
        {u : DeviceTarget}
        → Permits u.type input.action
        → some u ≡ some d
        → Permits d.type input.action
    permits_same p e = subst (λ (o : Option DeviceTarget). PermitsAny input o) e p

    unit_of : Option SensorTarget → String
    unit_of none = ""
    unit_of (some t) = t.unit

    units_differ : (s.unit == input.condition.unit) ≡ false → s.unit ≡ input.condition.unit → ⊥
    units_differ h e = ground (arith, eq_iff s.unit input.condition.unit)

-- A rule's targets pass exactly when both lists were fetched, the first sensor of the list with the
-- id of the condition has the condition's unit, and the first device with the id of the action has
-- a type that permits the action, in the sense in which the worker carries actions out. In every
-- other case the check ends with an error.
pub validate_rule_targets-IsTarget_iff :
    (input : RuleInput) (sensors : List SensorTarget) (devices : List DeviceTarget)
    → ((validate_rule_targets input (some sensors) (some devices) ≡ passed)
        ↔ IsTarget input
            (find (λ s. s.id == input.condition.sensor_id) sensors)
            (find (λ d. d.id == input.action.device_id) devices))
      × ((answer : Option (List DeviceTarget)) → validate_rule_targets input none answer ≢ passed)
      × (validate_rule_targets input (some sensors) none ≢ passed)
unfolding validate_rule_targets
validate_rule_targets-IsTarget_iff input sensors devices =
    (check_targets-IsTarget input _ _, (λ answer h. cc h), (λ h. cc h))
