-- ===== src/Client/Studio/Messages.antt =====
-- `formatApiError` of components/rules/rule-studio.tsx: the lines of the message.
use semantic_layer_explore.Prelude.{
  String, Bool, true, List, [], ◌∷◌, ◌++◌, ◌≡◌, ◌≢◌, ◌↔◌, ◌⊎◌, inl, inr, refl, sym, arith, ◌==◌,
  eq_iff, any, Bool-cases, All, Member, first, later,
}
use semantic_layer_explore.Client.Studio.{
  ApiErrorBody, error_or, field_messages, messages_of, unique_from,
}

abbrev pub IsUnique : List String → Type 0
IsUnique [] = Unit
IsUnique (m ∷ ms) = All (λ n. n ≢ m) ms × IsUnique ms

-- Whether a message was seen.
abbrev seen_in : List String → String → Bool
seen_in seen m = any (λ s. s == m) seen

seen-Member : (seen : List String) (m : String) → seen_in seen m ≡ true → Member m seen
unfolding any
seen-Member [] m h = cc h
seen-Member (s ∷ seen) m h = elim (Bool-cases (s == m)) [
  | inl here ↦ first (sym ((eq_iff s m).0 here))
  | inr there ↦ later (seen-Member seen m (ground arith))
]

Member-seen : (seen : List String) (m : String) → Member m seen → seen_in seen m ≡ true
unfolding any
Member-seen (s ∷ seen) m (first e) = ground (arith, (eq_iff s m).1 (sym e))
Member-seen (s ∷ seen) m (later q) = ground (arith, Member-seen seen m q)
Member-seen [] m q = elim q [ ]

unique_from-fresh :
    (seen ms : List String) (x : String)
    → seen_in seen x ≡ true
    → All (λ n. n ≢ x) (unique_from seen ms)
unfolding unique_from
unique_from-fresh seen [] x h = tt
unique_from-fresh seen (m ∷ ms) x h = elim (Bool-cases (seen_in seen m)) [
  | inl old ↦ rw old (unique_from-fresh seen ms x h)
  | inr new ↦ rw new (
    (λ e. cc (h, new, e)),
    unique_from-fresh (m ∷ seen) ms x (Member-seen (m ∷ seen) x (later (seen-Member seen x h))),
  )
]

unique_from-IsUnique : (seen ms : List String) → IsUnique (unique_from seen ms)
unfolding unique_from
unique_from-IsUnique seen [] = tt
unique_from-IsUnique seen (m ∷ ms) = elim (Bool-cases (seen_in seen m)) [
  | inl old ↦ rw old (unique_from-IsUnique seen ms)
  | inr new ↦ rw new (
    unique_from-fresh (m ∷ seen) ms m (Member-seen (m ∷ seen) m (first refl)),
    unique_from-IsUnique (m ∷ seen) ms,
  )
]

unique_from-Member :
    (seen ms : List String) {x : String} → Member x (unique_from seen ms) → Member x ms
unfolding unique_from
unique_from-Member seen [] q = q
unique_from-Member seen (m ∷ ms) {x} q = elim (Bool-cases (seen_in seen m)) [
  | inl old ↦ later (unique_from-Member seen ms (rw old at q))
  | inr new ↦ back (λ r. unique_from-Member (m ∷ seen) ms r) (rw new at q)
]
  where
    back :
        (Member x (unique_from (m ∷ seen) ms) → Member x ms)
        → Member x (m ∷ unique_from (m ∷ seen) ms)
        → Member x (m ∷ ms)
    back ih (first e) = first e
    back ih (later r) = later (ih r)

Member-unique_from :
    (seen ms : List String) {x : String}
    → Member x ms
    → Member x seen ⊎ Member x (unique_from seen ms)
unfolding unique_from
Member-unique_from seen (m ∷ ms) {x} (first e) = elim (Bool-cases (seen_in seen m)) [
  | inl old ↦ inl (rw e (seen-Member seen m old))
  | inr new ↦ rw new (inr (first e))
]
Member-unique_from seen (m ∷ ms) {x} (later q) = elim (Bool-cases (seen_in seen m)) [
  | inl old ↦ rw old (Member-unique_from seen ms q)
  | inr new ↦ rw new (place (Member-unique_from (m ∷ seen) ms q))
]
  where
    place :
        Member x (m ∷ seen) ⊎ Member x (unique_from (m ∷ seen) ms)
        → Member x seen ⊎ Member x (m ∷ unique_from (m ∷ seen) ms)
    place (inl (first e)) = inr (first e)
    place (inl (later r)) = inl r
    place (inr r) = inr (later r)
Member-unique_from seen [] q = elim q [ ]

nowhere : {x : String} {A : Type 0} → Member x [] ⊎ A → A
nowhere (inl q) = elim q [ ]
nowhere (inr a) = a

-- The lines of the message of a refused request come once each, they are the error or its
-- substitute, the errors of the form and those of the fields and nothing else, and none of these is
-- missing.
pub unique_from-messages_of :
    (result : ApiErrorBody) (fallback : String)
    → IsUnique (unique_from [] (messages_of result fallback))
      × ((line : String)
          → Member line (unique_from [] (messages_of result fallback))
            ↔ Member line (
                error_or result.error fallback ∷ result.form_errors
                ++ field_messages result.field_errors))
unfolding messages_of
unique_from-messages_of result fallback = (
  unique_from-IsUnique [] _,
  λ line. ((λ q. unique_from-Member [] _ q), λ q. nowhere (Member-unique_from [] _ q)),
)
