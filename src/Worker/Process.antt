-- ===== src/Worker/Process.antt =====
-- worker/src/main.ts and worker/src/health/health-server.ts: the start and the shutdown of the worker
-- as steps that may come in any order that the code allows. A step ends at an `await`.
pub mod Laws
use semantic_layer_explore.Prelude.{
  ℕ, String, Bool, true, false, ◌&&◌, ◌||◌, ◌==◌, ◌≡◌, if◌then◌else◌,
}

-- Where `bootstrap` is: at `health.start()`, in `startWithRetry` before and behind an attempt's
-- `consumer.connect()`, behind `startWithRetry`, at its end, or rejected.
pub data Boot : Type 0 where
  listening_first connecting subscribing started up failed : Boot

-- Where `shutdown` is: not called, at `consumer.stop()`, `app.close()`, `health.stop()`, at its
-- end, or rejected by one of these.
pub data Stage : Type 0 where
  idle stopping closing ending done broken : Stage

pub record Process : Type 0 where
  pub boot : Boot
  pub stage : Stage
  -- whether the handlers of SIGINT and SIGTERM are registered
  pub handlers : Bool
  pub shutting_down : Bool
  -- `startup.signal.aborted`
  pub aborted : Bool
  -- whether the server of the health endpoint listens, and its `ready`
  pub listening : Bool
  pub ready : Bool
  -- `connected` of the consumer
  pub connected : Bool

abbrev pub initial : Process
initial = record {
  boot = listening_first;
  stage = idle;
  handlers = false;
  shutting_down = false;
  aborted = false;
  listening = false;
  ready = false;
  connected = false;
}

-- The request handler of the health server.
unfoldable pub respond : Bool → String → ℕ × String
respond is_ready url =
    let live = url == "/health" in
    let ready = url == "/ready" && is_ready in
    (
      if live || ready then 200 else if url == "/ready" then 503 else 404,
      if live
          then "ok"
          else if ready
          then "ready"
          else if url == "/ready"
          then "not-ready"
          else "not-found",
    )

unfoldable pub after_listen : Process → Process
after_listen p = record p { listening = true; handlers = true; boot = connecting }

-- `if (!shuttingDown) health.markReady()`
unfoldable pub after_startup : Process → Process
after_startup p =
    if p.shutting_down then record p { boot = up } else record p { boot = up; ready = true }

-- `shutdown` up to its first `await`
unfoldable pub shutdown : Process → Process
shutdown p =
    if p.shutting_down
    then p
    else record p { shutting_down = true; ready = false; aborted = true; stage = stopping }

-- `stop` of the consumer, which does nothing where it is not connected
unfoldable pub after_stop : Process → Process
after_stop p = record p { connected = false; stage = closing }

-- `stop` of the health server, which marks it not ready first
unfoldable pub after_health_stop : Process → Process
after_health_stop p = record p { ready = false; listening = false; stage = done }

unfoldable pub fail_health_stop : Process → Process
fail_health_stop p = record p { ready = false; stage = broken }

pub data Step : Process → Process → Type 0 where
  listen : (p : Process) → p.boot ≡ listening_first → Step p (after_listen p)
  listen_failed : (p : Process) → p.boot ≡ listening_first → Step p (record p { boot = failed })
  connect :
      (p : Process)
      → p.boot ≡ connecting
      → Step p (record p { connected = true; boot = subscribing })
  retry : (p : Process) → p.boot ≡ subscribing → Step p (record p { boot = connecting })
  start : (p : Process) → p.boot ≡ subscribing → Step p (record p { boot = started })
  abort :
      (p : Process) → p.boot ≡ connecting → p.aborted ≡ true → Step p (record p { boot = failed })
  finish : (p : Process) → p.boot ≡ started → Step p (after_startup p)
  signal : (p : Process) → p.handlers ≡ true → Step p (shutdown p)
  stop : (p : Process) → p.stage ≡ stopping → Step p (after_stop p)
  stop_failed :
      (p : Process) → p.stage ≡ stopping → p.connected ≡ true → Step p (record p { stage = broken })
  close : (p : Process) → p.stage ≡ closing → Step p (record p { stage = ending })
  close_failed : (p : Process) → p.stage ≡ closing → Step p (record p { stage = broken })
  end : (p : Process) → p.stage ≡ ending → Step p (after_health_stop p)
  end_failed : (p : Process) → p.stage ≡ ending → Step p (fail_health_stop p)

pub data Steps : Process → Process → Type 0 where
  here : {p : Process} → Steps p p
  next : {p q r : Process} → Step p q → Steps q r → Steps p r
