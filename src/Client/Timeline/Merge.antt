-- ===== src/Client/Timeline/Merge.antt =====
-- `mergeEvents` of components/dashboard/workspace-dashboard.tsx: what its result holds.
use semantic_layer_explore.Prelude.{
  ℕ, zero, suc, ◌≤◌, ◌≡◌, ◌≢◌, ◌↔◌, refl, sym, String, List, [], ◌∷◌, ◌⊎◌, inl, inr, arith, leb,
  take, length, length-take, All, Member, first, later, Bool-cases,
}
use semantic_layer_explore.Client.Timeline.{
  WorkspaceEvent, collect, insert_event, sort_events, merge_events,
}
use semantic_layer_explore.Client.Timeline.Order.{
  IsBelow, IsFalling, take-IsFalling, sort_events-IsFalling,
}
use semantic_layer_explore.Client.Timeline.Collect.{
  NoneOf, IsDistinct, collect-IsDistinct, collect-append, collect-Member, collect_old, collect_new,
}

pub insert_event-NoneOf :
    (id : String) (e : WorkspaceEvent) (es : List WorkspaceEvent)
    → e.event_id ≢ id
    → NoneOf id es
    → NoneOf id (insert_event e es)
unfolding insert_event
insert_event-NoneOf id e [] h k = (h, tt)
insert_event-NoneOf id e (f ∷ fs) h k = elim (Bool-cases (leb f.id e.id)) [
  | inl here ↦ rw here (h, k)
  | inr below ↦ rw below (k.0, insert_event-NoneOf id e fs h k.1)
]

pub insert_event-IsDistinct :
    (e : WorkspaceEvent) (es : List WorkspaceEvent)
    → NoneOf e.event_id es
    → IsDistinct es
    → IsDistinct (insert_event e es)
unfolding insert_event
insert_event-IsDistinct e [] h k = (tt, tt)
insert_event-IsDistinct e (f ∷ fs) h k = elim (Bool-cases (leb f.id e.id)) [
  | inl here ↦ rw here (h, k)
  | inr below ↦ rw below (
    insert_event-NoneOf f.event_id e fs (λ q. h.0 (sym q)) k.0,
    insert_event-IsDistinct e fs h.1 k.1,
  )
]

sort_events-NoneOf :
    (id : String) (es : List WorkspaceEvent) → NoneOf id es → NoneOf id (sort_events es)
unfolding sort_events
sort_events-NoneOf id [] h = tt
sort_events-NoneOf id (e ∷ es) h =
    insert_event-NoneOf id e (sort_events es) h.0 (sort_events-NoneOf id es h.1)

sort_events-IsDistinct : (es : List WorkspaceEvent) → IsDistinct es → IsDistinct (sort_events es)
unfolding sort_events
sort_events-IsDistinct [] h = tt
sort_events-IsDistinct (e ∷ es) h =
    insert_event-IsDistinct e (sort_events es) (sort_events-NoneOf e.event_id es h.0)
      (sort_events-IsDistinct es h.1)

insert_event-Member :
    (e : WorkspaceEvent) (es : List WorkspaceEvent) {x : WorkspaceEvent}
    → Member x (insert_event e es) ↔ Member x (e ∷ es)
unfolding insert_event
insert_event-Member e [] = (λ q. q, λ q. q)
insert_event-Member e (f ∷ fs) {x} = elim (Bool-cases (leb f.id e.id)) [
  | inl here ↦ rw here (λ q. q, λ q. q)
  | inr below ↦ rw below (out (insert_event-Member e fs).0, back (insert_event-Member e fs).1)
]
  where
    out :
        (Member x (insert_event e fs) → Member x (e ∷ fs))
        → Member x (f ∷ insert_event e fs)
        → Member x (e ∷ f ∷ fs)
    out ih (first q) = later (first q)
    out ih (later q) = elim (ih q) [ first r ↦ first r | later r ↦ later (later r) ]

    back :
        (Member x (e ∷ fs) → Member x (insert_event e fs))
        → Member x (e ∷ f ∷ fs)
        → Member x (f ∷ insert_event e fs)
    back ih (first q) = later (ih (first q))
    back ih (later (first q)) = first q
    back ih (later (later q)) = later (ih (later q))

sort_events-Member :
    (es : List WorkspaceEvent) {x : WorkspaceEvent} → Member x (sort_events es) ↔ Member x es
unfolding sort_events
sort_events-Member [] = (λ q. q, λ q. q)
sort_events-Member (e ∷ es) {x} = (
  λ q. out (sort_events-Member es).0 ((insert_event-Member e (sort_events es)).0 q),
  λ q. (insert_event-Member e (sort_events es)).1 (back (sort_events-Member es).1 q),
)
  where
    out :
        (Member x (sort_events es) → Member x es)
        → Member x (e ∷ sort_events es)
        → Member x (e ∷ es)
    out ih (first q) = first q
    out ih (later q) = later (ih q)

    back :
        (Member x es → Member x (sort_events es))
        → Member x (e ∷ es)
        → Member x (e ∷ sort_events es)
    back ih (first q) = first q
    back ih (later q) = later (ih q)

pub take-NoneOf :
    (id : String) (k : ℕ) (es : List WorkspaceEvent) → NoneOf id es → NoneOf id (take k es)
take-NoneOf id zero es h = tt
take-NoneOf id (suc k) [] h = tt
take-NoneOf id (suc k) (e ∷ es) h = (h.0, take-NoneOf id k es h.1)

pub take-IsDistinct : (k : ℕ) (es : List WorkspaceEvent) → IsDistinct es → IsDistinct (take k es)
take-IsDistinct zero es h = tt
take-IsDistinct (suc k) [] h = tt
take-IsDistinct (suc k) (e ∷ es) h = (take-NoneOf e.event_id k es h.0, take-IsDistinct k es h.1)

take-Member :
    (k : ℕ) (es : List WorkspaceEvent) {x : WorkspaceEvent} → Member x (take k es) → Member x es
take-Member zero es q = elim q [ ]
take-Member (suc k) [] q = elim q [ ]
take-Member (suc k) (e ∷ es) (first q) = first q
take-Member (suc k) (e ∷ es) (later q) = later (take-Member k es q)

-- The list is full, and an event with the id would stand behind all of it.
abbrev pub LeavesOut : ℕ → ℕ → List WorkspaceEvent → Type 0
LeavesOut k n es = (length es ≡ k) × All (λ f. n ≤ f.id) es

IsBelow-Member :
    (n : ℕ) (es : List WorkspaceEvent) {x : WorkspaceEvent} → IsBelow n es → Member x es → x.id ≤ n
IsBelow-Member n (e ∷ es) h (first q) = rw q h.0
IsBelow-Member n (e ∷ es) h (later q) = IsBelow-Member n es h.1 q
IsBelow-Member n [] h q = elim q [ ]

take_or_LeavesOut :
    (k : ℕ) (es : List WorkspaceEvent) {x : WorkspaceEvent}
    → IsFalling es
    → Member x es
    → Member x (take k es) ⊎ LeavesOut k x.id (take k es)
take_or_LeavesOut zero es h q = inr (refl, tt)
take_or_LeavesOut (suc k) (e ∷ es) h (first q) = inl (first q)
take_or_LeavesOut (suc k) (e ∷ es) h (later q) = elim (take_or_LeavesOut k es h.1 q) [
  | inl here ↦ inl (later here)
  | inr (full, above) ↦ inr (omega arith, (IsBelow-Member e.id es h.0 q, above))
]
take_or_LeavesOut (suc k) [] h q = elim q [ ]

-- An event that the merge has to show: a current one, or an incoming one whose event id no current
-- one has.
abbrev pub Latest : WorkspaceEvent → List WorkspaceEvent → List WorkspaceEvent → Type 0
Latest x current incoming = Member x current ⊎ (Member x incoming × NoneOf x.event_id current)

pub record IsMerge (current incoming result : List WorkspaceEvent) : Type 0 where
  pub falling : IsFalling result
  pub few : length result ≤ 40
  pub distinct : IsDistinct result
  pub latest : (x : WorkspaceEvent) → Member x result → Latest x current incoming
  pub complete :
      (x : WorkspaceEvent) → Latest x current incoming → Member x result ⊎ LeavesOut 40 x.id result

module _ (current incoming : List WorkspaceEvent) where
  abbrev merged : List WorkspaceEvent
  merged = collect (collect [] incoming) current

  merged-Latest : (x : WorkspaceEvent) → Member x merged → Latest x current incoming
  merged-Latest x q =
      elim (collect-Member (collect [] incoming) current (collect-IsDistinct [] incoming tt) q) [
        | inl here ↦ inl here
        | inr (old, none) ↦ elim (collect-Member [] incoming tt old) [
          | inl new ↦ inr (new, none)
          | inr (nowhere, _) ↦ elim nowhere [ ]
        ]
      ]

  Latest-merged :
      (x : WorkspaceEvent)
      → IsDistinct current
      → IsDistinct incoming
      → Latest x current incoming
      → Member x merged
  Latest-merged x h k (inl q) = collect_new (collect [] incoming) current h q
  Latest-merged x h k (inr (q, none)) =
      collect_old (collect [] incoming) current (collect_new [] incoming k q) none

  sorted-IsMerge :
      IsDistinct current
      → IsDistinct incoming
      → IsMerge current incoming (take 40 (sort_events merged))
  sorted-IsMerge h k =
      let sorted = sort_events-IsFalling merged in
      record {
        falling = take-IsFalling 40 (sort_events merged) sorted;
        few = length-take 40 (sort_events merged);
        distinct = take-IsDistinct 40 (sort_events merged) (
            sort_events-IsDistinct merged (
              collect-IsDistinct (collect [] incoming) current
                (collect-IsDistinct [] incoming tt)));
        latest = λ x q.
            merged-Latest x ((sort_events-Member merged).0 (take-Member 40 (sort_events merged) q));
        complete = λ x q.
            take_or_LeavesOut 40 (sort_events merged) sorted
              ((sort_events-Member merged).1 (Latest-merged x h k q));
      }

  -- Where neither list has an event id twice, the merged timeline falls by id, has at most 40
  -- events and no event id twice. What it shows is a current event, or an incoming one whose event
  -- id no current event has; and every such event is shown, unless 40 others are shown whose ids
  -- are at least as high.
  pub merge_events-IsMerge :
      IsDistinct current
      → IsDistinct incoming
      → IsMerge current incoming (merge_events current incoming)
  unfolding merge_events
  merge_events-IsMerge h k = rw (collect-append [] incoming current) (sorted-IsMerge h k)
