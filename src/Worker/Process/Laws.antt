-- ===== src/Worker/Process/Laws.antt =====
-- When the worker says that it is ready, and what a shutdown leaves.
use semantic_layer_explore.Prelude.{
  String, Bool, true, false, ◌&&◌, ◌==◌, ◌≡◌, ◌⊎◌, ◌≢◌, refl, arith, not, ap, ◌∙◌, Bool-cases, inl,
  inr, if◌then◌else◌,
}
use semantic_layer_explore.Worker.Process.{
  Boot, listening_first, connecting, subscribing, started, up, failed, Stage, idle, done, Process,
  initial, respond, after_listen, after_startup, shutdown, after_stop, after_health_stop,
  fail_health_stop, Step, listen, listen_failed, connect, retry, start, abort, finish, signal, stop,
  stop_failed, close, close_failed, end, end_failed, Steps, here, next,
}

abbrev has_listened : Boot → Bool
has_listened connecting = true
has_listened subscribing = true
has_listened started = true
has_listened up = true
has_listened _ = false

abbrev is_up : Boot → Bool
is_up up = true
is_up _ = false

abbrev is_fresh : Boot → Bool
is_fresh listening_first = true
is_fresh _ = false

abbrev is_done : Stage → Bool
is_done done = true
is_done _ = false

abbrev is_idle : Stage → Bool
is_idle idle = true
is_idle _ = false

pub record IsOrderly (p : Process) : Type 0 where
  pub ready_up : p.ready ≡ true → is_up p.boot ≡ true
  pub ready_before : p.ready ≡ true → p.shutting_down ≡ false
  pub begun : p.shutting_down ≡ not (is_idle p.stage)
  pub aborted_same : p.aborted ≡ p.shutting_down
  pub handled : has_listened p.boot ≡ true → p.handlers ≡ true
  pub serves : p.handlers ≡ true → p.shutting_down ≡ false → p.listening ≡ true
  pub fresh : is_fresh p.boot ≡ true → p.handlers ≡ false
  pub closed : is_done p.stage ≡ true → p.listening ≡ false
  pub unhandled : p.shutting_down ≡ true → p.handlers ≡ true

Step-IsOrderly : {p q : Process} → Step p q → IsOrderly p → IsOrderly q
unfolding after_listen after_startup shutdown after_stop after_health_stop fail_health_stop
Step-IsOrderly (listen p e) h = ground arith
Step-IsOrderly (listen_failed p e) h = ground arith
Step-IsOrderly (connect p e) h = ground arith
Step-IsOrderly (retry p e) h = ground arith
Step-IsOrderly (start p e) h = ground arith
Step-IsOrderly (abort p e a) h = ground arith
Step-IsOrderly (finish p e) h = ground arith
Step-IsOrderly (signal p e) h = ground arith
Step-IsOrderly (stop p e) h = ground arith
Step-IsOrderly (stop_failed p e c) h = ground arith
Step-IsOrderly (close p e) h = ground arith
Step-IsOrderly (close_failed p e) h = ground arith
Step-IsOrderly (end p e) h = ground arith
Step-IsOrderly (end_failed p e) h = ground arith

Steps-IsOrderly : {p q : Process} → Steps p q → IsOrderly p → IsOrderly q
Steps-IsOrderly here h = h
Steps-IsOrderly (next s r) h = Steps-IsOrderly r (Step-IsOrderly s h)

initial-IsOrderly : IsOrderly initial
initial-IsOrderly = ground arith

Steps-append : {p q r : Process} → Steps p q → Steps q r → Steps p r
Steps-append here t = t
Steps-append (next s r) t = next s (Steps-append r t)

is_up-eq : (b : Boot) → is_up b ≡ true → b ≡ up
is_up-eq up h = refl
is_up-eq listening_first h = cc h
is_up-eq connecting h = cc h
is_up-eq subscribing h = cc h
is_up-eq started h = cc h
is_up-eq failed h = cc h

not_ready_body :
    (live ready : Bool)
    → ◌≡◌ {A = String}
        (if live
          then "ok"
          else if ready && false
          then "ready"
          else if ready
          then "not-ready"
          else "not-found")
        "ready"
    → false ≡ true
not_ready_body true ready h = ap (λ text. text == "ready") h
not_ready_body false true h = ap (λ text. text == "ready") h
not_ready_body false false h = ap (λ text. text == "ready") h

respond-ready : (r : Bool) (url : String) → (respond r url).1 ≡ "ready" → r ≡ true
unfolding respond
respond-ready true url h = refl
respond-ready false url h = not_ready_body (url == "/health") (url == "/ready") h

-- In every run of the worker, an answer of the health endpoint that says ready is given only once the
-- start of the consumer has succeeded, before any shutdown, and while the server listens.
pub Steps-ready_sound :
    (p : Process) (url : String)
    → Steps initial p
    → (respond p.ready url).1 ≡ "ready"
    → (p.boot ≡ up) × (p.shutting_down ≡ false) × (p.listening ≡ true)
Steps-ready_sound p url run h =
    let orderly = Steps-IsOrderly run initial-IsOrderly in
    let ready = respond-ready p.ready url h in
    let before = orderly.ready_before ready in
    (
      is_up-eq p.boot (orderly.ready_up ready),
      before,
      orderly.serves (orderly.handled (rw (is_up-eq p.boot (orderly.ready_up ready)) refl)) before,
    )

Step-shutting_down : {p q : Process} → Step p q → p.shutting_down ≡ true → q.shutting_down ≡ true
unfolding after_listen after_startup shutdown after_stop after_health_stop fail_health_stop
Step-shutting_down (listen p e) h = h
Step-shutting_down (listen_failed p e) h = h
Step-shutting_down (connect p e) h = h
Step-shutting_down (retry p e) h = h
Step-shutting_down (start p e) h = h
Step-shutting_down (abort p e a) h = h
Step-shutting_down (finish p e) h = ground arith
Step-shutting_down (signal p e) h = ground arith
Step-shutting_down (stop p e) h = h
Step-shutting_down (stop_failed p e c) h = h
Step-shutting_down (close p e) h = h
Step-shutting_down (close_failed p e) h = h
Step-shutting_down (end p e) h = h
Step-shutting_down (end_failed p e) h = h

Steps-shutting_down : {p q : Process} → Steps p q → p.shutting_down ≡ true → q.shutting_down ≡ true
Steps-shutting_down here h = h
Steps-shutting_down (next s r) h = Steps-shutting_down r (Step-shutting_down s h)

ended : (q : Process) → IsOrderly q → (q.stage ≢ done) ⊎ (q.listening ≡ false)
ended q h = elim (Bool-cases (is_done q.stage)) [
  | inl over ↦ inr (h.closed over)
  | inr going ↦ inl λ e. cc (going, ap is_done e)
]

-- From a signal on, in every further run, also where the consumer's start succeeds later, the
-- endpoint of readiness answers 503, and that of health still 200; the start is told to give up; and
-- once the shutdown has ended the server does not listen.
pub Steps-never_ready :
    (p q : Process)
    → Steps initial p
    → p.shutting_down ≡ true
    → Steps p q
    → (respond q.ready "/ready" ≡ (503, "not-ready"))
      × (respond q.ready "/health" ≡ (200, "ok"))
      × (q.aborted ≡ true)
      × ((q.stage ≢ done) ⊎ (q.listening ≡ false))
unfolding respond
Steps-never_ready p q run begun later =
    let orderly = Steps-IsOrderly (Steps-append run later) initial-IsOrderly in
    let still = Steps-shutting_down later begun in
    let quiet : q.ready ≡ false = ground (arith, orderly.ready_before) in
    rw quiet (refl, refl, orderly.aborted_same ∙ still, ended q orderly)
