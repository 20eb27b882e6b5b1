-- ===== src/Client/Timeline/Order.antt =====
-- Insertion into a list of events that falls by id.
use semantic_layer_explore.Prelude.{
  ℕ, zero, suc, ◌≤◌, ◌≡◌, ◌≢◌, refl, sym, ap, ◌∙◌, List, [], ◌∷◌, ◌++◌, arith, leb, take, All,
  Bool-cases, inl, inr,
}
use semantic_layer_explore.Client.Timeline.{WorkspaceEvent, insert_event, sort_events}

-- The events are inserted one by one, the last one first.
abbrev pub insert_all : List WorkspaceEvent → List WorkspaceEvent → List WorkspaceEvent
insert_all l [] = l
insert_all l (e ∷ es) = insert_event e (insert_all l es)

abbrev pub IsBelow : ℕ → List WorkspaceEvent → Type 0
IsBelow n es = All (λ e. e.id ≤ n) es

abbrev pub IsFalling : List WorkspaceEvent → Type 0
IsFalling [] = Unit
IsFalling (e ∷ es) = IsBelow e.id es × IsFalling es

-- No event of the list has the id.
abbrev pub HasNot : ℕ → List WorkspaceEvent → Type 0
HasNot n es = All (λ e. e.id ≢ n) es

insert_event-IsBelow :
    (n : ℕ) (e : WorkspaceEvent) (es : List WorkspaceEvent)
    → e.id ≤ n
    → IsBelow n es
    → IsBelow n (insert_event e es)
unfolding insert_event
insert_event-IsBelow n e [] h k = (h, tt)
insert_event-IsBelow n e (f ∷ fs) h k = elim (Bool-cases (leb f.id e.id)) [
  | inl here ↦ rw here (h, k)
  | inr later ↦ rw later (k.0, insert_event-IsBelow n e fs h k.1)
]

IsBelow-le : (m n : ℕ) (es : List WorkspaceEvent) → m ≤ n → IsBelow m es → IsBelow n es
IsBelow-le m n [] h k = tt
IsBelow-le m n (e ∷ es) h k = (omega arith, IsBelow-le m n es h k.1)

pub insert_event-IsFalling :
    (e : WorkspaceEvent) (es : List WorkspaceEvent) → IsFalling es → IsFalling (insert_event e es)
unfolding insert_event
insert_event-IsFalling e [] h = (tt, tt)
insert_event-IsFalling e (f ∷ fs) h = elim (Bool-cases (leb f.id e.id)) [
  | inl here ↦ rw here ((ground arith, IsBelow-le f.id e.id fs (ground arith) h.0), h)
  | inr later ↦
      rw later (insert_event-IsBelow f.id e fs (ground arith) h.0, insert_event-IsFalling e fs h.1)
]

pub sort_events-IsFalling : (es : List WorkspaceEvent) → IsFalling (sort_events es)
unfolding sort_events
sort_events-IsFalling [] = tt
sort_events-IsFalling (e ∷ es) =
    insert_event-IsFalling e (sort_events es) (sort_events-IsFalling es)

pub sort_events-insert_all : (es : List WorkspaceEvent) → sort_events es ≡ insert_all [] es
unfolding sort_events
sort_events-insert_all [] = refl
sort_events-insert_all (e ∷ es) = ap (insert_event e) (sort_events-insert_all es)

pub insert_all-append :
    (l es fs : List WorkspaceEvent) → insert_all l (es ++ fs) ≡ insert_all (insert_all l fs) es
insert_all-append l [] fs = refl
insert_all-append l (e ∷ es) fs = ap (insert_event e) (insert_all-append l es fs)

insert_event-head :
    (e : WorkspaceEvent) (es : List WorkspaceEvent) → IsBelow e.id es → insert_event e es ≡ e ∷ es
unfolding insert_event
insert_event-head e [] h = refl
insert_event-head e (f ∷ fs) h = ground arith

-- Sorting a list that falls already changes nothing.
pub insert_all-IsFalling : (es : List WorkspaceEvent) → IsFalling es → insert_all [] es ≡ es
insert_all-IsFalling [] h = refl
insert_all-IsFalling (e ∷ es) h =
    ap (insert_event e) (insert_all-IsFalling es h.1) ∙ insert_event-head e es h.0

take-IsBelow : (n k : ℕ) (es : List WorkspaceEvent) → IsBelow n es → IsBelow n (take k es)
take-IsBelow n zero es h = tt
take-IsBelow n (suc k) [] h = tt
take-IsBelow n (suc k) (e ∷ es) h = (h.0, take-IsBelow n k es h.1)

pub take-IsFalling : (k : ℕ) (es : List WorkspaceEvent) → IsFalling es → IsFalling (take k es)
take-IsFalling zero es h = tt
take-IsFalling (suc k) [] h = tt
take-IsFalling (suc k) (e ∷ es) h = (take-IsBelow e.id k es h.0, take-IsFalling k es h.1)

take_twice : (k : ℕ) (es : List WorkspaceEvent) → take k (take k es) ≡ take k es
take_twice zero es = refl
take_twice (suc k) [] = refl
take_twice (suc k) (e ∷ es) = ap (◌∷◌ e) (take_twice k es)

take-take-suc : (k : ℕ) (es : List WorkspaceEvent) → take k (take (suc k) es) ≡ take k es
take-take-suc zero es = refl
take-take-suc (suc k) [] = refl
take-take-suc (suc k) (e ∷ es) = ap (◌∷◌ e) (take-take-suc k es)

take_cons :
    (k : ℕ) (e : WorkspaceEvent) (es : List WorkspaceEvent)
    → take k (e ∷ take k es) ≡ take k (e ∷ es)
take_cons zero e es = refl
take_cons (suc k) e es = ap (◌∷◌ e) (take-take-suc k es)

-- What is cut off behind a place stays cut off, whatever is inserted.
take-insert_event :
    (k : ℕ) (e : WorkspaceEvent) (es : List WorkspaceEvent)
    → take k (insert_event e (take k es)) ≡ take k (insert_event e es)
unfolding insert_event
take-insert_event zero e es = refl
take-insert_event (suc k) e [] = refl
take-insert_event (suc k) e (f ∷ fs) = elim (Bool-cases (leb f.id e.id)) [
  | inl here ↦ rw here (ap (◌∷◌ e) (take_cons k f fs))
  | inr later ↦ rw later (ap (◌∷◌ f) (take-insert_event k e fs))
]

pub take-insert_all :
    (k : ℕ) (l es : List WorkspaceEvent)
    → take k (insert_all (take k l) es) ≡ take k (insert_all l es)
take-insert_all k l [] = take_twice k l
take-insert_all k l (e ∷ es) =
    sym (take-insert_event k e (insert_all (take k l) es))
    ∙ ap (λ r. take k (insert_event e r)) (take-insert_all k l es)
    ∙ take-insert_event k e (insert_all l es)

insert_comm :
    (e f : WorkspaceEvent) (es : List WorkspaceEvent)
    → e.id ≢ f.id
    → insert_event e (insert_event f es) ≡ insert_event f (insert_event e es)
unfolding insert_event
insert_comm e f [] h = ground arith
insert_comm e f (g ∷ es) h = ground (arith, insert_comm e f es h)

insert_event-insert_all :
    (e : WorkspaceEvent) (l es : List WorkspaceEvent)
    → HasNot e.id es
    → insert_all (insert_event e l) es ≡ insert_event e (insert_all l es)
insert_event-insert_all e l [] h = refl
insert_event-insert_all e l (f ∷ es) h =
    ap (insert_event f) (insert_event-insert_all e l es h.1) ∙ insert_comm f e (insert_all l es) h.0

-- Two lists without a common id can be inserted in either order.
pub insert_all_comm :
    (l es fs : List WorkspaceEvent)
    → All (λ e. HasNot e.id fs) es
    → insert_all (insert_all l es) fs ≡ insert_all (insert_all l fs) es
insert_all_comm l [] fs h = refl
insert_all_comm l (e ∷ es) fs h =
    insert_event-insert_all e (insert_all l es) fs h.0
    ∙ ap (insert_event e) (insert_all_comm l es fs h.1)
