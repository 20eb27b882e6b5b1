-- ===== src/Client/Studio/Laws.antt =====
-- components/rules/rule-studio.tsx: what is sent only with consent, and that the studio becomes
-- idle again.
use semantic_layer_explore.Prelude.{
  Bool, true, false, ◌||◌, not, ◌≡◌, ◌⊎◌, inl, inr, refl, ◌==◌, Bool-cases,
}
use semantic_layer_explore.Js.Json.{truthy}
use semantic_layer_explore.Js.Result.{Result, ok, threw}
use semantic_layer_explore.Client.Policy.{SemanticAction, rule_approve, rule_toggle, rule_delete}
use semantic_layer_explore.Client.Consent.{confirm_semantic_action}
use semantic_layer_explore.Client.Consent.Laws.{Consented, confirm_semantic_action-Consented}
use semantic_layer_explore.Client.Action.{Action}
use semantic_layer_explore.Client.Studio.{
  Studio, RuleRecord, Browser, with_consent, consented, settle, propose, approve, mutate_rule,
}

module _ (w : Browser) where
  -- Nothing was sent, or the action was consented to.
  abbrev pub SentWith : SemanticAction → Studio → Studio → Type 0
  SentWith action s t = (t.sent ≡ s.sent) ⊎ Consented w.confirm w.ontology action

  settle-sent : (out : Result (Unit {0}) × Studio) → (settle w out).sent ≡ out.1.sent
  settle-sent (ok x, s) = refl
  settle-sent (threw e, s) = refl

  with_consent-SentWith :
      (action : SemanticAction) (answer : Result Bool) (rest : Action Studio (Unit {0}))
      (s : Studio)
      → (confirm_semantic_action w.runtime w.confirm w.ontology action).0 ≡ answer
      → SentWith action s (with_consent w answer rest s).1
  with_consent-SentWith action (threw e) rest s h = inl refl
  with_consent-SentWith action (ok false) rest s h = inl refl
  with_consent-SentWith action (ok true) rest s h =
      inr (confirm_semantic_action-Consented w.runtime w.confirm w.ontology action h)

  consented-SentWith :
      (action : SemanticAction) (rest : Action Studio (Unit {0})) (s : Studio)
      → SentWith action s (settle w (consented w action rest s))
  unfolding consented
  consented-SentWith action rest s =
      let (answer, shown) = confirm_semantic_action w.runtime w.confirm w.ontology action in
      rw (settle-sent (with_consent w answer rest (record s { semantic_trace = shown })))
        (with_consent-SentWith action answer rest (record s { semantic_trace = shown }) refl)

  -- A rule is saved, switched or deleted only where the ontology was read and confirms the role
  -- that the action needs, and the person has said yes to its prompt: without that, the handlers
  -- send no request but the one that reads the ontology.
  pub studio-SentWith :
      (s : Studio) (rule : RuleRecord)
      → SentWith rule_approve s (approve w s)
        × SentWith rule_delete s (mutate_rule w rule true s)
        × SentWith rule_toggle s (mutate_rule w rule false s)
  unfolding approve mutate_rule
  studio-SentWith s rule = (
    elim (Bool-cases (not (truthy s.proposal) || not (s.busy == ""))) [
      | inl refused ↦ rw refused (inl refl)
      | inr goes ↦
          rw goes (consented-SentWith rule_approve _ (record s { busy = "approve"; error = "" }))
    ],
    consented-SentWith rule_delete _ (record s { busy = rule.id; error = "" }),
    consented-SentWith rule_toggle _ (record s { busy = rule.id; error = "" }),
  )

  -- Whatever fails, a handler that does anything leaves the studio idle.
  pub studio_idle :
      (s : Studio) (rule : RuleRecord) (is_delete : Bool)
      → ((propose w s ≡ s) ⊎ ((propose w s).busy ≡ ""))
        × ((approve w s ≡ s) ⊎ ((approve w s).busy ≡ ""))
        × ((mutate_rule w rule is_delete s).busy ≡ "")
  unfolding propose approve mutate_rule
  studio_idle s rule is_delete = (
    elim (Bool-cases (w.runtime.trim s.instruction == "" || not (s.busy == ""))) [
      | inl refused ↦ rw refused (inl refl)
      | inr goes ↦ rw goes (inr refl)
    ],
    elim (Bool-cases (not (truthy s.proposal) || not (s.busy == ""))) [
      | inl refused ↦ rw refused (inl refl)
      | inr goes ↦ rw goes (inr refl)
    ],
    refl,
  )
