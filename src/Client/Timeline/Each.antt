-- ===== src/Client/Timeline/Each.antt =====
-- Events without a common event id that are merged into a timeline one by one.
use semantic_layer_explore.Prelude.{
  ℕ, zero, suc, ◌≤◌, ◌≡◌, ◌≢◌, refl, sym, ap, ◌∙◌, List, [], ◌∷◌, ◌++◌, append-nil, append_assoc,
  arith, eq_iff, take, length, length-take, All, All-append,
}
use semantic_layer_explore.Client.Timeline.{
  WorkspaceEvent, set_event, collect, insert_event, merge_events,
}
use semantic_layer_explore.Client.Timeline.Order.{
  IsFalling, HasNot, insert_all, insert_event-IsFalling, take-IsFalling, sort_events-insert_all,
  insert_all-append, insert_all-IsFalling, take-insert_all,
}
use semantic_layer_explore.Client.Timeline.Collect.{NoneOf, IsDistinct}
use semantic_layer_explore.Client.Timeline.Merge.{
  insert_event-NoneOf, insert_event-IsDistinct, take-NoneOf, take-IsDistinct,
}

abbrev pub backwards : List WorkspaceEvent → List WorkspaceEvent
backwards [] = []
backwards (e ∷ es) = backwards es ++ e ∷ []

-- None of the events has an event id of the list.
abbrev pub Unknown : List WorkspaceEvent → List WorkspaceEvent → Type 0
Unknown known es = All (λ e. NoneOf e.event_id known) es

-- No event of the one list has the id of an event of the other.
abbrev pub Apart : List WorkspaceEvent → List WorkspaceEvent → Type 0
Apart known es = All (λ e. HasNot e.id es) known

-- The events are merged in one by one.
abbrev pub merge_each : List WorkspaceEvent → List WorkspaceEvent → List WorkspaceEvent
merge_each current [] = current
merge_each current (e ∷ es) = merge_each (merge_events current (e ∷ [])) es

set_event-append :
    (e : WorkspaceEvent) (es : List WorkspaceEvent)
    → NoneOf e.event_id es
    → set_event e es ≡ es ++ e ∷ []
unfolding set_event
set_event-append e [] h = refl
set_event-append e (f ∷ fs) h = ground (arith, eq_iff f.event_id e.event_id, set_event-append e fs)

Unknown-snoc :
    (known es : List WorkspaceEvent) (e : WorkspaceEvent)
    → Unknown known es
    → NoneOf e.event_id es
    → Unknown (known ++ e ∷ []) es
Unknown-snoc known [] e h k = tt
Unknown-snoc known (f ∷ es) e h k = (
  All-append (λ r. r.event_id ≢ f.event_id) known (e ∷ []) h.0 ((λ q. k.0 (sym q)), tt),
  Unknown-snoc known es e h.1 k.1,
)

collect_distinct :
    (known es : List WorkspaceEvent)
    → Unknown known es
    → IsDistinct es
    → collect known es ≡ known ++ es
unfolding collect
collect_distinct known [] h k = sym (append-nil known)
collect_distinct known (e ∷ es) h k = rw (set_event-append e known h.0) (
    collect_distinct (known ++ e ∷ []) es (Unknown-snoc known es e h.1 k.0) k.1
    ∙ append_assoc known (e ∷ []) es)

pub Unknown-nil : (es : List WorkspaceEvent) → Unknown [] es
Unknown-nil [] = tt
Unknown-nil (e ∷ es) = (tt, Unknown-nil es)

-- Where no event id comes twice, a merge is an insertion.
pub merge_distinct :
    (current incoming : List WorkspaceEvent)
    → IsFalling current
    → IsDistinct (incoming ++ current)
    → merge_events current incoming ≡ take 40 (insert_all current incoming)
unfolding merge_events
merge_distinct current incoming h k =
    rw (collect_distinct [] (incoming ++ current) (Unknown-nil _) k) (
      ap (take 40) (
        sort_events-insert_all (incoming ++ current)
        ∙ insert_all-append [] incoming current
        ∙ ap (λ l. insert_all l incoming) (insert_all-IsFalling current h)))

pub take_all : (k : ℕ) (es : List WorkspaceEvent) → length es ≤ k → take k es ≡ es
take_all zero [] h = refl
take_all (suc k) [] h = refl
take_all (suc k) (e ∷ es) h = ap (◌∷◌ e) (take_all k es (omega arith))
take_all zero (e ∷ es) h = absurd (omega arith)

Unknown-insert :
    (known es : List WorkspaceEvent) (e : WorkspaceEvent)
    → Unknown known es
    → NoneOf e.event_id es
    → Unknown (take 40 (insert_event e known)) es
Unknown-insert known [] e h k = tt
Unknown-insert known (f ∷ es) e h k = (
  take-NoneOf f.event_id 40 (insert_event e known)
      (insert_event-NoneOf f.event_id e known (λ q. k.0 (sym q)) h.0),
  Unknown-insert known es e h.1 k.1,
)

-- What merging one by one leaves.
pub merge_each_lem :
    (current es : List WorkspaceEvent)
    → IsFalling current
    → IsDistinct current
    → length current ≤ 40
    → Unknown current es
    → IsDistinct es
    → merge_each current es ≡ take 40 (insert_all current (backwards es))
merge_each_lem current [] falls distinct few fresh apart = sym (take_all 40 current few)
merge_each_lem current (e ∷ es) falls distinct few fresh apart =
    rw (merge_distinct current (e ∷ []) falls (fresh.0, distinct)) (
      merge_each_lem (take 40 (insert_event e current)) es
        (take-IsFalling 40 _ (insert_event-IsFalling e current falls))
        (take-IsDistinct 40 _ (insert_event-IsDistinct e current fresh.0 distinct))
        (length-take 40 (insert_event e current)) (Unknown-insert current es e fresh.1 apart.0)
        apart.1
      ∙ take-insert_all 40 (insert_event e current) (backwards es)
      ∙ ap (take 40) (sym (insert_all-append current (backwards es) (e ∷ []))))
