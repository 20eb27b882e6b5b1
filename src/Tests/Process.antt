-- ===== src/Tests/Process.antt =====
-- The theorems on the worker's start and shutdown, at concrete runs.
use semantic_layer_explore.Prelude.{true, false, ◌≡◌, ◌⊎◌, ◌≢◌, refl}
use semantic_layer_explore.Worker.Process.{
  up, done, Process, initial, respond, after_listen, after_startup, shutdown, Steps, here, next,
  listen, connect, start, finish, signal, stop, close, end, started, subscribing, after_stop,
  after_health_stop, ending,
}
use semantic_layer_explore.Worker.Process.Laws.{Steps-ready_sound, Steps-never_ready}

abbrev connected_process : Process
connected_process = record (after_listen initial) { connected = true; boot = subscribing }

abbrev ready_process : Process
ready_process = after_startup (record connected_process { boot = started })

ready_run : Steps initial ready_process
unfolding after_listen after_startup
ready_run = next (listen initial refl) (
    next (connect (after_listen initial) refl) (
      next (start connected_process refl)
        (next (finish (record connected_process { boot = started }) refl) here)))

Steps-ready_sound_example :
    (ready_process.boot ≡ up)
    × (ready_process.shutting_down ≡ false)
    × (ready_process.listening ≡ true)
unfolding after_listen after_startup respond
Steps-ready_sound_example = Steps-ready_sound ready_process "/ready" ready_run refl

-- A signal comes while the consumer connects.
abbrev interrupted : Process
interrupted = shutdown (after_listen initial)

interrupted_run : Steps initial interrupted
unfolding after_listen
interrupted_run = next (listen initial refl) (next (signal (after_listen initial) refl) here)

abbrev late : Process
late = record (after_health_stop (record (after_stop interrupted) { stage = ending })) {
  connected = true;
  boot = subscribing;
}

-- The shutdown ends first, and the consumer is connected behind it.
late_run : Steps interrupted late
unfolding after_listen after_stop after_health_stop shutdown
late_run = next (stop interrupted refl) (
    next (close (after_stop interrupted) refl) (
      next (end (record (after_stop interrupted) { stage = ending }) refl) (
        next (connect (after_health_stop (record (after_stop interrupted) { stage = ending })) refl)
          here)))

late_is_connected : (late.stage ≡ done) × (late.connected ≡ true)
unfolding after_health_stop
late_is_connected = (refl, refl)

Steps-never_ready_example :
    (respond late.ready "/ready" ≡ (503, "not-ready"))
    × (respond late.ready "/health" ≡ (200, "ok"))
    × (late.aborted ≡ true)
    × ((late.stage ≢ done) ⊎ (late.listening ≡ false))
unfolding shutdown after_listen
Steps-never_ready_example = Steps-never_ready interrupted late interrupted_run refl late_run
