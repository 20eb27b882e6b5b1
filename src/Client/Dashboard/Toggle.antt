-- ===== src/Client/Dashboard/Toggle.antt =====
-- The command of a device's button in components/dashboard/workspace-dashboard.tsx, against the
-- commands that the worker permits.
use semantic_layer_explore.Prelude.{
  String, false, none, ◌≡◌, ◌≢◌, ◌⊎◌, inl, inr, refl, ap, ◌==◌, Bool-cases, eq_iff,
}
use semantic_layer_explore.Js.Result.{ok}
use semantic_layer_explore.Js.Json.{Fields}
use semantic_layer_explore.Worker.Rule.{RuleAction, apply_action}
use semantic_layer_explore.Worker.Rule.Laws.{Permits, switch, buzz, apply_action-Permits_iff}
use semantic_layer_explore.Client.Dashboard.{DeviceButton, toggle_command}

-- The types of devices whose button is not disabled.
abbrev pub CanToggle : DeviceButton → Type 0
CanToggle d = (d.type ≡ "led") ⊎ (d.type ≡ "relay") ⊎ (d.type ≡ "buzzer")

abbrev pub toggle_action : DeviceButton → RuleAction
toggle_action d = record { device_id = d.id; command = toggle_command d; value = none }

command_switch :
    (d : DeviceButton)
    → (d.type == "buzzer") ≡ false
    → (toggle_command d ≡ "on") ⊎ (toggle_command d ≡ "off")
unfolding toggle_command
command_switch d h = elim (Bool-cases (d.status == "on")) [
  | inl on ↦ rw (h, on) (inr refl)
  | inr off ↦ rw (h, off) (inl refl)
]

toggle-Permits : (d : DeviceButton) → CanToggle d → Permits d.type (toggle_action d)
unfolding toggle_command
toggle-Permits d (inl led) = switch (inl led) (command_switch d (ap (λ k. k == "buzzer") led))
toggle-Permits d (inr (inl relay)) =
    switch (inr relay) (command_switch d (ap (λ k. k == "buzzer") relay))
toggle-Permits d (inr (inr buzzer)) =
    buzz buzzer (inl (rw ((eq_iff d.type "buzzer").1 buzzer) refl))

toggle_other :
    (d : DeviceButton)
    → (d.type ≡ "buzzer")
      ⊎ (toggle_command (record d { status = toggle_command d }) ≢ toggle_command d)
unfolding toggle_command
toggle_other d = elim (Bool-cases (d.type == "buzzer")) [
  | inl buzzer ↦ inl ((eq_iff d.type "buzzer").0 buzzer)
  | inr other ↦ inr (elim (Bool-cases (d.status == "on")) [
    | inl on ↦ rw (other, on) (λ e. cc (ap (λ k. k == "on") e))
    | inr off ↦ rw (other, off) (λ e. cc (ap (λ k. k == "on") e))
  ])
]

-- The button of a device that is no servo sends a command that the worker carries out on a device
-- of that type, in whatever state; and once the device has the status that an LED or a relay is
-- switched to, its button sends the other command.
pub toggle_command-Permits :
    (d : DeviceButton) (state : Fields) (at : String)
    → CanToggle d
    → Permits d.type (toggle_action d)
      × ((next : Fields) × (apply_action d.type state (toggle_action d) at ≡ ok next))
      × ((d.type ≡ "buzzer")
          ⊎ (toggle_command (record d { status = toggle_command d }) ≢ toggle_command d))
toggle_command-Permits d state at can = (
  toggle-Permits d can,
  (apply_action-Permits_iff d.type state (toggle_action d) at).1 (toggle-Permits d can),
  toggle_other d,
)
