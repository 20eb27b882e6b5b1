-- ===== src/Client/Timeline/Hidden.antt =====
-- A page that is hidden buffers the events of the stream; what is shown afterwards.
use semantic_layer_explore.Prelude.{
  ℕ, zero, suc, ◌≤◌, ◌≡◌, ◌≢◌, refl, sym, ap, ◌∙◌, true, false, List, [], ◌∷◌, ◌++◌, arith, leb,
  take, length, All, All-append, All-weaken, Bool-cases, inl, inr,
}
use semantic_layer_explore.Client.Timeline.{
  WorkspaceEvent, Timeline, insert_event, merge_events, schedule_refresh, receive_event,
  receive_all, change_visibility, flushed,
}
use semantic_layer_explore.Client.Timeline.Order.{
  IsFalling, insert_all, insert_event-IsFalling, take-IsFalling, insert_all-IsFalling,
  take-insert_all, insert_all_comm,
}
use semantic_layer_explore.Client.Timeline.Collect.{NoneOf, IsDistinct}
use semantic_layer_explore.Client.Timeline.Merge.{merge_events-IsMerge}
use semantic_layer_explore.Client.Timeline.Each.{
  backwards, Unknown, Apart, merge_each, merge_distinct, take_all, Unknown-nil, merge_each_lem,
}

module _ (P : WorkspaceEvent → Type 0) where
  All-backwards : (es : List WorkspaceEvent) → All P es → All P (backwards es)
  All-backwards [] h = tt
  All-backwards (e ∷ es) h = All-append P (backwards es) (e ∷ []) (All-backwards es h.1) (h.0, tt)

  All-insert_event :
      (e : WorkspaceEvent) (es : List WorkspaceEvent) → P e → All P es → All P (insert_event e es)
  unfolding insert_event
  All-insert_event e [] h k = (h, tt)
  All-insert_event e (f ∷ fs) h k = elim (Bool-cases (leb f.id e.id)) [
    | inl here ↦ rw here (h, k)
    | inr below ↦ rw below (k.0, All-insert_event e fs h k.1)
  ]

  All-insert_all : (l es : List WorkspaceEvent) → All P l → All P es → All P (insert_all l es)
  All-insert_all l [] h k = h
  All-insert_all l (e ∷ es) h k =
      All-insert_event e (insert_all l es) k.0 (All-insert_all l es h k.1)

  All-take : (k : ℕ) (es : List WorkspaceEvent) → All P es → All P (take k es)
  All-take zero es h = tt
  All-take (suc k) [] h = tt
  All-take (suc k) (e ∷ es) h = (h.0, All-take k es h.1)

  -- What holds of the events of the stream holds of the buffer.
  All-buffer :
      (es : List WorkspaceEvent) → All P es → All P (take 40 (insert_all [] (backwards es)))
  All-buffer es h = All-take 40 _ (All-insert_all [] (backwards es) tt (All-backwards es h))

IsDistinct-append :
    (es fs : List WorkspaceEvent)
    → IsDistinct es
    → IsDistinct fs
    → Unknown fs es
    → IsDistinct (es ++ fs)
IsDistinct-append [] fs h k apart = k
IsDistinct-append (e ∷ es) fs h k apart = (
  All-append (λ r. r.event_id ≢ e.event_id) es fs h.0 apart.0,
  IsDistinct-append es fs h.1 k apart.1,
)

merge_each-IsDistinct :
    (current es : List WorkspaceEvent) → IsDistinct current → IsDistinct (merge_each current es)
merge_each-IsDistinct current [] h = h
merge_each-IsDistinct current (e ∷ es) h =
    merge_each-IsDistinct (merge_events current (e ∷ [])) es
      (merge_events-IsMerge current (e ∷ []) h (tt, tt)).distinct

insert_all-falls : (es : List WorkspaceEvent) → IsFalling (insert_all [] es)
insert_all-falls [] = tt
insert_all-falls (e ∷ es) = insert_event-IsFalling e (insert_all [] es) (insert_all-falls es)

module _ (current es : List WorkspaceEvent) where
  abbrev sorted : List WorkspaceEvent
  sorted = insert_all [] (backwards es)

  -- The buffer may be cut at 40 before it is inserted.
  insert_cut :
      IsFalling current
      → Apart current es
      → take 40 (insert_all current (take 40 sorted)) ≡ take 40 (insert_all current (backwards es))
  insert_cut falls apart =
      let alone = insert_all-IsFalling current falls in
      let cut : insert_all [] (take 40 sorted) ≡ take 40 sorted =
        insert_all-IsFalling (take 40 sorted)
          (take-IsFalling 40 sorted (insert_all-falls (backwards es))) in
      ap (λ c. take 40 (insert_all c (take 40 sorted))) (sym alone)
      ∙ ap (take 40) (
          insert_all_comm [] current (take 40 sorted)
            (All-weaken (λ e h. All-buffer (λ f. f.id ≢ e.id) es h) current apart))
      ∙ ap (λ c. take 40 (insert_all c current)) cut
      ∙ take-insert_all 40 sorted current
      ∙ ap (take 40) (
          sym (
            insert_all_comm [] current (backwards es)
              (All-weaken (λ e h. All-backwards (λ f. f.id ≢ e.id) es h) current apart)))
      ∙ ap (λ c. take 40 (insert_all c (backwards es))) alone

  flushed_lem :
      (buffer : List WorkspaceEvent)
      → IsFalling current
      → length current ≤ 40
      → IsDistinct (buffer ++ current)
      → flushed current buffer ≡ take 40 (insert_all current buffer)
  flushed_lem [] falls few distinct = sym (take_all 40 current few)
  flushed_lem (e ∷ buffer) falls few distinct = merge_distinct current (e ∷ buffer) falls distinct

  pub flushed-merge_each :
      IsFalling current
      → IsDistinct current
      → length current ≤ 40
      → Unknown current es
      → IsDistinct es
      → Apart current es
      → flushed current (merge_each [] es) ≡ merge_each current es
  flushed-merge_each falls distinct few fresh once apart =
      let buffer = merge_each_lem [] es tt tt (omega arith) (Unknown-nil es) once in
      let whole : IsDistinct (merge_each [] es ++ current) =
        IsDistinct-append (merge_each [] es) current (merge_each-IsDistinct [] es tt) distinct
          (rw buffer (All-buffer (λ e. NoneOf e.event_id current) es fresh)) in
      flushed_lem (merge_each [] es) falls few whole
      ∙ ap (λ b. take 40 (insert_all current b)) buffer
      ∙ insert_cut falls apart
      ∙ sym (merge_each_lem current es falls distinct few fresh once)

receive_all-shown :
    (es : List WorkspaceEvent) (t : Timeline)
    → t.visible ≡ true
    → (receive_all es t).events ≡ merge_each t.events es
unfolding receive_all receive_event schedule_refresh
receive_all-shown [] t h = refl
receive_all-shown (e ∷ es) t h =
    receive_all-shown es (receive_event e t) (ground arith)
    ∙ ap (λ c. merge_each c es) (ground arith)

receive_all-hidden :
    (es : List WorkspaceEvent) (t : Timeline)
    → t.visible ≡ false
    → ((receive_all es t).events ≡ t.events)
      × ((receive_all es t).buffered ≡ merge_each t.buffered es)
unfolding receive_all receive_event schedule_refresh
receive_all-hidden [] t h = (refl, refl)
receive_all-hidden (e ∷ es) t h =
    let (same, more) = receive_all-hidden es (receive_event e t) (ground arith) in
    (same ∙ ground arith, more ∙ ap (λ c. merge_each c es) (ground arith))

-- Hiding the page loses nothing and changes no order. Let a visible timeline with an empty buffer
-- fall by id, have at most 40 events and no event id twice, and let events come whose event ids and
-- ids are new, none of the event ids twice. If the page is hidden while they come and shown again,
-- it shows what it would have shown had it been visible all along, and the buffer is empty again.
pub change_visibility-receive_all :
    (t : Timeline) (es : List WorkspaceEvent)
    → t.visible ≡ true
    → t.buffered ≡ []
    → IsFalling t.events
    → IsDistinct t.events
    → length t.events ≤ 40
    → Unknown t.events es
    → IsDistinct es
    → Apart t.events es
    → ((change_visibility true (receive_all es (change_visibility false t))).events
        ≡ (receive_all es t).events)
      × ((change_visibility true (receive_all es (change_visibility false t))).buffered ≡ [])
unfolding change_visibility
change_visibility-receive_all t es visible empty falls distinct few fresh once apart =
    let (same, buffer) = receive_all-hidden es (record t { visible = false }) refl in
    (
      rw (same, buffer, empty) (flushed-merge_each t.events es falls distinct few fresh once apart)
          ∙ sym (receive_all-shown es t visible),
      refl,
    )
