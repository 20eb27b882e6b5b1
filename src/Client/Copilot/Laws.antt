-- ===== src/Client/Copilot/Laws.antt =====
-- components/ai/ask-ai.tsx: consent, the end of loading, and late answers.
use semantic_layer_explore.Prelude.{
  ℕ, String, Bool, true, false, ◌||◌, Option, none, some, ◌≡◌, ◌⊎◌, inl, inr, refl, arith, ◌==◌,
  Bool-cases,
}
use semantic_layer_explore.Js.Json.{Json, string, array, nil}
use semantic_layer_explore.Js.Result.{Result, ok, threw}
use semantic_layer_explore.Client.Policy.{copilot_query}
use semantic_layer_explore.Client.Consent.{confirm_semantic_action}
use semantic_layer_explore.Client.Consent.Laws.{Consented, confirm_semantic_action-Consented}
use semantic_layer_explore.Client.Action.{Action}
use semantic_layer_explore.Client.Copilot.{
  Copilot, Browser, when_approved, with_consent, ended, ask, explain_event, Explanation, start_run,
  is_cancelled, settled, end_run, Shows, at_first, starts, ends,
}

module _ (w : Browser) where
  -- Nothing was sent, or the person has agreed to act as the inspection team.
  abbrev pub SentWith : Copilot → Copilot → Type 0
  SentWith s t = (t.sent ≡ s.sent) ⊎ Consented w.confirm w.ontology copilot_query

  ended-sent : (out : Result (Option Json) × Copilot) → (ended w out).sent ≡ out.1.sent
  ended-sent (ok none, s) = refl
  ended-sent (ok (some r), s) = refl
  ended-sent (threw e, s) = refl

  when_approved-SentWith :
      (answer : Result Bool) (rest : Action Copilot (Option Json)) (s : Copilot)
      → (confirm_semantic_action w.runtime w.confirm w.ontology copilot_query).0 ≡ answer
      → SentWith s (when_approved w answer rest s).1
  when_approved-SentWith (threw e) rest s h = inl refl
  when_approved-SentWith (ok false) rest s h = inl refl
  when_approved-SentWith (ok true) rest s h =
      inr (confirm_semantic_action-Consented w.runtime w.confirm w.ontology copilot_query h)

  with_consent-SentWith :
      (rest : Action Copilot (Option Json)) (s : Copilot) → SentWith s (with_consent w rest s).1
  unfolding with_consent
  with_consent-SentWith rest s =
      let (answer, shown) = confirm_semantic_action w.runtime w.confirm w.ontology copilot_query in
      when_approved-SentWith answer rest (record s { semantic_trace = shown }) refl

  ended-loading : (out : Result (Option Json) × Copilot) → (ended w out).loading ≡ false
  ended-loading (ok r, s) = refl
  ended-loading (threw e, s) = refl

  -- A question and an event go to the language model only where the ontology was read and confirms
  -- the inspection team, and the person has agreed to continue as it. And a question that was taken
  -- up ends: the page is not loading any more, whatever failed.
  pub copilot-SentWith :
      (s : Copilot) (event_id : String)
      → SentWith s (ask w s)
        × SentWith s (explain_event w event_id s).1
        × ((ask w s ≡ s) ⊎ ((ask w s).loading ≡ false))
  unfolding ask explain_event
  copilot-SentWith s event_id = (
    elim (Bool-cases (w.runtime.trim s.question == "" || s.loading)) [
      | inl refused ↦ rw refused (inl refl)
      | inr goes ↦ rw goes (
          rw
            (ended-sent (
              with_consent w _
                (record s { loading = true; answer = string ""; trace = array nil; error = "" })))
            (with_consent-SentWith _
              (record s { loading = true; answer = string ""; trace = array nil; error = "" })))
    ],
    with_consent-SentWith _ s,
    elim (Bool-cases (w.runtime.trim s.question == "" || s.loading)) [
      | inl refused ↦ rw refused (inl refl)
      | inr goes ↦ rw goes (inr (ended-loading _))
    ],
  )

module _ (outcome : ℕ → Result (Option Json)) where
  -- The run that the page is at has ended with this result.
  abbrev pub IsCurrent : Option ℕ → Json → Type 0
  IsCurrent current r = (run : ℕ) × (current ≡ some run) × (outcome run ≡ ok (some r))

  current_run : (run : ℕ) (c : Option ℕ) → is_cancelled run c ≡ false → c ≡ some run
  current_run run none h = cc h
  current_run run (some other) h = ground arith

  settled-IsCurrent :
      (run : ℕ) (o : Result (Option Json)) (s : Explanation)
      → outcome run ≡ o
      → s.current ≡ some run
      → ((r : Json) → s.result ≡ some r → IsCurrent s.current r)
      → (r : Json) → (settled o s).result ≡ some r
      → IsCurrent (settled o s).current r
  settled-IsCurrent run (threw m) s e c h r shown = h r shown
  settled-IsCurrent run (ok none) s e c h r shown = h r shown
  settled-IsCurrent run (ok (some x)) s e c h r shown = (run, c, cc (e, shown))

  end_run-IsCurrent :
      (run : ℕ) (o : Result (Option Json)) (s : Explanation)
      → outcome run ≡ o
      → ((r : Json) → s.result ≡ some r → IsCurrent s.current r)
      → (r : Json) → (end_run run o s).result ≡ some r
      → IsCurrent (end_run run o s).current r
  unfolding end_run
  end_run-IsCurrent run o s e h r shown = elim (Bool-cases (is_cancelled run s.current)) [
    | inl late ↦ rw late (h r (rw late at shown))
    | inr due ↦
        rw due (settled-IsCurrent run o s e (current_run run s.current due) h r (rw due at shown))
  ]

  -- In every order in which the runs start and end, the explanation that is shown is the result of
  -- the run that was started last: a late answer to an earlier event never shows.
  pub Shows-IsCurrent :
      (s : Explanation) (r : Json) → Shows outcome s → s.result ≡ some r → IsCurrent s.current r
  unfolding start_run
  Shows-IsCurrent s r at_first h = cc h
  Shows-IsCurrent s r (starts t run q) h = cc h
  Shows-IsCurrent s r (ends t run q) h =
      end_run-IsCurrent run (outcome run) t refl (λ x e. Shows-IsCurrent t x q e) r h
