-- ===== src/Worker/Startup.antt =====
-- `startWithRetry` of worker/src/consumer/telemetry-consumer.ts, and the guard of `runNow` of
-- worker/src/retention/retention-service.ts.
pub mod Laws
use semantic_layer_explore.Prelude.{
  ℕ, zero, suc, ◌+◌, ◌-◌, ◌≡◌, ◌*◌, min, String, Bool, true, false, Option, none, some, List, [],
  ◌∷◌, if◌then◌else◌,
}
use semantic_layer_explore.Js.Result.{Result, ok, threw}

-- What the signal says before each attempt from now on, and how each attempt ends.
pub record Outlook : Type 0 where
  pub aborted : ℕ → Bool
  pub start : ℕ → Result (Unit {0})

unfoldable pub next_outlook : Outlook → Outlook
next_outlook o = record { aborted = λ m. o.aborted (suc m); start = λ m. o.start (suc m) }

unfoldable pub delay_ms : ℕ → ℕ
delay_ms attempt = min 30_000 (1_000 * attempt)

-- How the call ends, `none` where the fuel ends first, and the delays it sets, in their order; an
-- abort ends a wait early.
pub record Startup : Type 0 where
  pub outcome : Option (Result (Unit {0}))
  pub delays : List ℕ

abbrev wait : ℕ → Startup → Startup
wait delay s = record s { delays = delay ∷ s.delays }

abbrev pub after_start : Result (Unit {0}) → Startup → Startup
after_start (ok x) retried = record { outcome = some (ok tt); delays = [] }
after_start (threw e) retried = retried

-- The loop, with the attempts made before. Its fuel is the number of rounds.
unfoldable pub start_with_retry : ℕ → ℕ → Outlook → Startup
unfolding next_outlook delay_ms
start_with_retry zero attempt o = record { outcome = none; delays = [] }
start_with_retry (suc fuel) attempt o =
    let retried = start_with_retry fuel (attempt + 1) (next_outlook o) in
    if o.aborted 0
    then record { outcome = some (threw "consumer startup aborted"); delays = [] }
    else after_start (o.start 0) (wait (delay_ms (attempt + 1)) retried)

-- The cleanup's service: its flag, and the calls of `cleanupRetention` that have not ended.
pub record RetentionService : Type 0 where
  pub running : Bool
  pub unfinished : ℕ

abbrev pub idle : RetentionService
idle = record { running = false; unfinished = 0 }

-- `runNow` up to its `await`, and its `finally`.
unfoldable pub run_now : RetentionService → RetentionService
run_now s = if s.running then s else record { running = true; unfinished = s.unfinished + 1 }

unfoldable pub finish_run : RetentionService → RetentionService
finish_run s = record { running = false; unfinished = s.unfinished - 1 }

-- The timer calls `runNow`; a cleanup that was started ends.
pub data Reaches : RetentionService → Type 0 where
  at_start : Reaches idle
  ticked : (s : RetentionService) → Reaches s → Reaches (run_now s)
  ended : (s : RetentionService) (n : ℕ) → Reaches s → s.unfinished ≡ suc n → Reaches (finish_run s)
