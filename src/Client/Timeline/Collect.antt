-- ===== src/Client/Timeline/Collect.antt =====
-- The map by event id in `mergeEvents` of components/dashboard/workspace-dashboard.tsx.
use semantic_layer_explore.Prelude.{
  ◌≡◌, ◌≢◌, refl, sym, ap, ◌∙◌, true, false, String, List, [], ◌∷◌, ◌++◌, ◌⊎◌, inl, inr, All,
  Member, first, later, Bool-cases, ◌==◌, eq_iff,
}
use semantic_layer_explore.Client.Timeline.{WorkspaceEvent, set_event, collect}

-- No event of the list has this event id.
abbrev pub NoneOf : String → List WorkspaceEvent → Type 0
NoneOf id es = All (λ e. e.event_id ≢ id) es

abbrev pub IsDistinct : List WorkspaceEvent → Type 0
IsDistinct [] = Unit
IsDistinct (e ∷ es) = NoneOf e.event_id es × IsDistinct es

same_id : (e f : WorkspaceEvent) → (f.event_id == e.event_id) ≡ true → f.event_id ≡ e.event_id
same_id e f h = (eq_iff f.event_id e.event_id).0 h

other_id : (e f : WorkspaceEvent) → (f.event_id == e.event_id) ≡ false → f.event_id ≢ e.event_id
other_id e f h k = cc (h, (eq_iff f.event_id e.event_id).1 k)

set_event-NoneOf :
    (id : String) (e : WorkspaceEvent) (es : List WorkspaceEvent)
    → e.event_id ≢ id
    → NoneOf id es
    → NoneOf id (set_event e es)
unfolding set_event
set_event-NoneOf id e [] h k = (h, tt)
set_event-NoneOf id e (f ∷ fs) h k = elim (Bool-cases (f.event_id == e.event_id)) [
  | inl same ↦ rw same (h, k.1)
  | inr other ↦ rw other (k.0, set_event-NoneOf id e fs h k.1)
]

set_event-IsDistinct :
    (e : WorkspaceEvent) (es : List WorkspaceEvent) → IsDistinct es → IsDistinct (set_event e es)
unfolding set_event
set_event-IsDistinct e [] h = (tt, tt)
set_event-IsDistinct e (f ∷ fs) h = elim (Bool-cases (f.event_id == e.event_id)) [
  | inl same ↦ rw same (rw (same_id e f same) at h.0, h.1)
  | inr other ↦ rw other (
    set_event-NoneOf f.event_id e fs (λ k. other_id e f other (sym k)) h.0,
    set_event-IsDistinct e fs h.1,
  )
]

pub collect-IsDistinct : (m es : List WorkspaceEvent) → IsDistinct m → IsDistinct (collect m es)
unfolding collect
collect-IsDistinct m [] h = h
collect-IsDistinct m (e ∷ es) h = collect-IsDistinct (set_event e m) es (set_event-IsDistinct e m h)

pub collect-append :
    (m es fs : List WorkspaceEvent) → collect m (es ++ fs) ≡ collect (collect m es) fs
unfolding collect
collect-append m [] fs = refl
collect-append m (e ∷ es) fs = collect-append (set_event e m) es fs

NoneOf-Member :
    (id : String) (es : List WorkspaceEvent) {x : WorkspaceEvent}
    → NoneOf id es
    → Member x es
    → x.event_id ≢ id
NoneOf-Member id (e ∷ es) h (first same) k = h.0 (ap (λ r. r.event_id) (sym same) ∙ k)
NoneOf-Member id (e ∷ es) h (later m) k = NoneOf-Member id es h.1 m k
NoneOf-Member id [] h m k = elim m [ ]

set_event-Member :
    (e : WorkspaceEvent) (es : List WorkspaceEvent) {x : WorkspaceEvent}
    → IsDistinct es
    → Member x (set_event e es)
    → (x ≡ e) ⊎ (Member x es × (e.event_id ≢ x.event_id))
unfolding set_event
set_event-Member e [] h (first same) = inl same
set_event-Member e [] h (later m) = elim m [ ]
set_event-Member e (f ∷ fs) {x} h m = elim (Bool-cases (f.event_id == e.event_id)) [
  | inl same ↦ replaced (rw same at m) (same_id e f same)
  | inr other ↦ passed (λ q. set_event-Member e fs h.1 q) (rw other at m) other
]
  where
    replaced :
        Member x (e ∷ fs)
        → f.event_id ≡ e.event_id
        → (x ≡ e) ⊎ (Member x (f ∷ fs) × (e.event_id ≢ x.event_id))
    replaced (first q) same = inl q
    replaced (later q) same =
        inr (later q, λ k. NoneOf-Member f.event_id fs h.0 q (sym k ∙ sym same))

    passed :
        (Member x (set_event e fs) → (x ≡ e) ⊎ (Member x fs × (e.event_id ≢ x.event_id)))
        → Member x (f ∷ set_event e fs)
        → (f.event_id == e.event_id) ≡ false
        → (x ≡ e) ⊎ (Member x (f ∷ fs) × (e.event_id ≢ x.event_id))
    passed again (first q) other =
        inr (first q, λ k. other_id e f other (sym (k ∙ ap (λ r. r.event_id) q)))
    passed again (later q) other = elim (again q) [
      | inl same ↦ inl same
      | inr (old, apart) ↦ inr (later old, apart)
    ]

set_event_new : (e : WorkspaceEvent) (es : List WorkspaceEvent) → Member e (set_event e es)
unfolding set_event
set_event_new e [] = first refl
set_event_new e (f ∷ fs) = elim (Bool-cases (f.event_id == e.event_id)) [
  | inl same ↦ rw same (first refl)
  | inr other ↦ rw other (later (set_event_new e fs))
]

set_event_old :
    (e : WorkspaceEvent) (es : List WorkspaceEvent) {x : WorkspaceEvent}
    → Member x es
    → e.event_id ≢ x.event_id
    → Member x (set_event e es)
unfolding set_event
set_event_old e (f ∷ fs) (first q) h = elim (Bool-cases (f.event_id == e.event_id)) [
  | inl same ↦ absurd (h (sym (ap (λ r. r.event_id) q ∙ same_id e f same)))
  | inr other ↦ rw other (first q)
]
set_event_old e (f ∷ fs) (later m) h = elim (Bool-cases (f.event_id == e.event_id)) [
  | inl same ↦ rw same (later m)
  | inr other ↦ rw other (later (set_event_old e fs m h))
]
set_event_old e [] m h = elim m [ ]

pub collect-Member :
    (m es : List WorkspaceEvent) {x : WorkspaceEvent}
    → IsDistinct m
    → Member x (collect m es)
    → Member x es ⊎ (Member x m × NoneOf x.event_id es)
unfolding collect
collect-Member m [] h q = inr (q, tt)
collect-Member m (e ∷ es) {x} h q =
    elim (collect-Member (set_event e m) es (set_event-IsDistinct e m h) q) [
      | inl here ↦ inl (later here)
      | inr (q', none) ↦ elim (set_event-Member e m h q') [
        | inl same ↦ inl (first same)
        | inr (old, apart) ↦ inr (old, (apart, none))
      ]
    ]

pub collect_old :
    (m es : List WorkspaceEvent) {x : WorkspaceEvent}
    → Member x m
    → NoneOf x.event_id es
    → Member x (collect m es)
unfolding collect
collect_old m [] q h = q
collect_old m (e ∷ es) q h = collect_old (set_event e m) es (set_event_old e m q h.0) h.1

pub collect_new :
    (m es : List WorkspaceEvent) {x : WorkspaceEvent}
    → IsDistinct es
    → Member x es
    → Member x (collect m es)
unfolding collect
collect_new m (e ∷ es) {x} h (first same) =
    collect_old (set_event e m) es (rw same (set_event_new e m)) (rw same h.0)
collect_new m (e ∷ es) h (later q) = collect_new (set_event e m) es h.1 q
collect_new m [] h q = elim q [ ]
