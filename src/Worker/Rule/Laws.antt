-- ===== src/Worker/Rule/Laws.antt =====
-- What the conditions and the actions of rules mean (worker/src/rules/deterministic-rule.ts).
use semantic_layer_explore.Prelude.{
  String, ◌≡◌, ◌≢◌, ◌∙◌, ◌↔◌, ◌⊎◌, inl, inr, refl, true, false, ◌&&◌, Option, none, some, ◌==◌,
  eq_iff, arith, if◌then◌else◌, Bool-cases,
}
use mathlib.Core.Option
use semantic_layer_explore.Js.Number.{Number, less, of_nat}
use semantic_layer_explore.Js.Json.{Json, number, string, Fields, get_field, get_field-set_field}
use semantic_layer_explore.Js.Result.{ok}
use semantic_layer_explore.Worker.Rule.{
  RuleAction, is_allowed, is_bad_angle, next_state, apply_action, with_angle,
}

-- An angle in degrees that a servo can take.
abbrev pub InRange : Option Number → Type 0
InRange none = ⊥
InRange (some v) = (less v (of_nat 0) ≡ false) × (less (of_nat 180) v ≡ false)

-- The commands that each type of device accepts.
pub data Permits : String → RuleAction → Type 0 where
  switch :
      {type : String} {action : RuleAction}
      → (type ≡ "led") ⊎ (type ≡ "relay")
      → (action.command ≡ "on") ⊎ (action.command ≡ "off")
      → Permits type action
  turn :
      {type : String} {action : RuleAction}
      → type ≡ "servo"
      → action.command ≡ "set-angle"
      → InRange action.value
      → Permits type action
  rest :
      {type : String} {action : RuleAction}
      → type ≡ "servo"
      → action.command ≡ "off"
      → Permits type action
  buzz :
      {type : String} {action : RuleAction}
      → type ≡ "buzzer"
      → (action.command ≡ "beep") ⊎ (action.command ≡ "off")
      → Permits type action

abbrev status_after : String → String
status_after command =
    if command == "set-angle" then "on" else if command == "beep" then "off" else command

abbrev or_angle : Option Number → Option Json → Option Json
or_angle none v = v
or_angle (some angle) v = some (number angle)

abbrev Listed : String → String → Type 0
Listed type command =
    (((type ≡ "led") ⊎ (type ≡ "relay")) × ((command ≡ "on") ⊎ (command ≡ "off")))
    ⊎ ((type ≡ "servo") × ((command ≡ "set-angle") ⊎ (command ≡ "off")))
    ⊎ ((type ≡ "buzzer") × ((command ≡ "beep") ⊎ (command ≡ "off")))

is_allowed_sound : (type command : String) → is_allowed type command ≡ true → Listed type command
unfolding is_allowed
is_allowed_sound type command h = ground (
  arith,
  eq_iff type "led",
  eq_iff type "relay",
  eq_iff type "servo",
  eq_iff type "buzzer",
  eq_iff "on" command,
  eq_iff "off" command,
  eq_iff "set-angle" command,
  eq_iff "beep" command,
)

angle_sound : (v : Option Number) → is_bad_angle v ≡ false → InRange v
unfolding is_bad_angle
angle_sound v h = ground arith

angle_complete : (v : Option Number) → InRange v → is_bad_angle v ≡ false
unfolding is_bad_angle
angle_complete none h = elim h [ ]
angle_complete (some v) h = ground arith

-- The two tests that an action has to pass.
apply_action-ok :
    (type : String) (current : Fields) (action : RuleAction) (at : String) {s : Fields}
    → apply_action type current action at ≡ ok s
    → (is_allowed type action.command ≡ true)
      × ((action.command == "set-angle" && is_bad_angle action.value) ≡ false)
      × (next_state current action at ≡ s)
unfolding apply_action
apply_action-ok type current action at h = ground arith

Permits-of_Listed :
    {type : String} (action : RuleAction)
    → Listed type action.command
    → (action.command == "set-angle" && is_bad_angle action.value) ≡ false
    → Permits type action
Permits-of_Listed action (inl (t, c)) h = switch t c
Permits-of_Listed action (inr (inl (t, inl c))) h =
    turn t c (angle_sound action.value (ground (arith, eq_iff action.command "set-angle")))
Permits-of_Listed action (inr (inl (t, inr c))) h = rest t c
Permits-of_Listed action (inr (inr (t, c))) h = buzz t c

Permits-tests :
    {type : String} {action : RuleAction}
    → Permits type action
    → (is_allowed type action.command ≡ true)
      × ((action.command == "set-angle" && is_bad_angle action.value) ≡ false)
unfolding is_allowed
Permits-tests (switch (inl t) (inl c)) = rw (t, c) (refl, refl)
Permits-tests (switch (inl t) (inr c)) = rw (t, c) (refl, refl)
Permits-tests (switch (inr t) (inl c)) = rw (t, c) (refl, refl)
Permits-tests (switch (inr t) (inr c)) = rw (t, c) (refl, refl)
Permits-tests {action} (turn t c h) = rw (t, c) (refl, angle_complete action.value h)
Permits-tests (rest t c) = rw (t, c) (refl, refl)
Permits-tests (buzz t (inl c)) = rw (t, c) (refl, refl)
Permits-tests (buzz t (inr c)) = rw (t, c) (refl, refl)

-- An action is carried out exactly when the type of the device permits it: `on` and `off` for a led
-- and a relay, `off` and an angle of 0 to 180 degrees for a servo, `beep` and `off` for a buzzer.
-- In every other case the call throws.
pub apply_action-Permits_iff :
    (type : String) (current : Fields) (action : RuleAction) (at : String)
    → ((s : Fields) × (apply_action type current action at ≡ ok s)) ↔ Permits type action
unfolding apply_action
apply_action-Permits_iff type current action at = (
  λ (s, h).
      let (listed, angle, _) = apply_action-ok type current action at h in
      Permits-of_Listed action (is_allowed_sound type action.command listed) angle,
  λ p. let (listed, angle) = Permits-tests p in (next_state current action at, rw (listed, angle)),
)

module _ (current : Fields) (action : RuleAction) (at : String) where
  with_angle-get :
      (k : String) (v : Option Number) (fs : Fields)
      → get_field k (with_angle v fs)
        ≡ (if "angle" == k then or_angle v (get_field k fs) else get_field k fs)
  with_angle-get k none fs = ground arith
  with_angle-get k (some v) fs = simp get_field-set_field

  -- What any key reads in the next state.
  next_state-get :
      (k : String)
      → get_field k (next_state current action at) ≡ (
          if "status" == k
          then some (string (status_after action.command))
          else if "lastCommandAt" == k
          then some (string at)
          else if ("angle" == k) && (action.command == "set-angle")
          then or_angle action.value (get_field k current)
          else get_field k current)
  unfolding next_state
  next_state-get k = elim (Bool-cases (action.command == "set-angle")) [
    | inl e ↦ rw e (
        simp (with_angle-get, get_field-set_field)
          (elim (Bool-cases ("angle" == k)) [
            | inl same ↦ rw (← (eq_iff "angle" k).0 same)
            | inr other ↦ ground arith
          ]))
    | inr e ↦ elim (Bool-cases (action.command == "beep")) [
      | inl b ↦ rw (e, b) (simp get_field-set_field (ground arith))
      | inr b ↦ rw (e, b) (simp get_field-set_field (ground arith))
    ]
  ]

angle_set :
    (action : RuleAction) (old : Option Json)
    → (action.command == "set-angle" && is_bad_angle action.value) ≡ false
    → (if action.command == "set-angle" then or_angle action.value old else old)
      ≡ (if action.command == "set-angle" then Option.map number action.value else old)
unfolding is_bad_angle
angle_set action old h = ground arith

-- The state that an action leaves: the time of the command, the status (`on` for an angle, `off` for
-- a beep, else the command itself), and the angle if one was set.
pub apply_action-state :
    (type : String) (current : Fields) (action : RuleAction) (at : String) (s : Fields)
    → apply_action type current action at ≡ ok s
    → (get_field "lastCommandAt" s ≡ some (string at))
      × (get_field "status" s
          ≡ some (
              string (
                if action.command == "set-angle"
                then "on"
                else if action.command == "beep"
                then "off"
                else action.command)))
      × (get_field "angle" s ≡ (
          if action.command == "set-angle"
          then Option.map number action.value
          else get_field "angle" current))
apply_action-state type current action at s h =
    let (_, angle, e) = apply_action-ok type current action at h in
    rw (← e) (
      next_state-get current action at "lastCommandAt",
      next_state-get current action at "status",
      next_state-get current action at "angle" ∙ angle_set action (get_field "angle" current) angle,
    )

-- Every other key of the state stays as it was.
pub apply_action-other_keys :
    (type : String) (current : Fields) (action : RuleAction) (at : String) (s : Fields) (k : String)
    → apply_action type current action at ≡ ok s
    → k ≢ "lastCommandAt"
    → k ≢ "status"
    → k ≢ "angle"
    → get_field k s ≡ get_field k current
apply_action-other_keys type current action at s k h not_time not_status not_angle =
    let (_, angle, e) = apply_action-ok type current action at h in
    rw (← e) (
      next_state-get current action at k
      ∙ ground (arith, eq_iff "status" k, eq_iff "lastCommandAt" k, eq_iff "angle" k))
