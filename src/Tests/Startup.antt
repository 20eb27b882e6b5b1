-- ===== src/Tests/Startup.antt =====
-- The theorems on the start of the consumer and on the timer of the cleanup, at concrete runs.
use semantic_layer_explore.Prelude.{◌≡◌, refl, false, some, if◌then◌else◌, inr, arith, eqb}
use semantic_layer_explore.Js.Result.{ok, threw}
use semantic_layer_explore.Worker.Startup.{
  Outlook, next_outlook, start_with_retry, at_start, ticked, idle, run_now,
}
use semantic_layer_explore.Worker.Startup.Laws.{
  Fails, FailsUntil, delays_of, last_of, start_with_retry-ends, Reaches-one_cleanup,
}

-- Two attempts fail, the third one succeeds.
abbrev third_time : Outlook
third_time = record {
  aborted = λ n. false;
  start = λ n. if eqb n 2 then ok tt else threw "no broker";
}

third_time_fails : FailsUntil 2 third_time
unfolding next_outlook
third_time_fails = (refl, failed, (refl, failed, tt))
  where
    failed : Fails (threw "no broker")
    failed = record { message = "no broker"; thrown = refl }

start_with_retry-ends_example :
    start_with_retry 5 0 third_time
    ≡ record { outcome = some (last_of false); delays = delays_of 0 2 }
start_with_retry-ends_example =
    start_with_retry-ends 2 5 third_time false (omega arith) third_time_fails refl (inr refl)

-- The timer ticks twice while the first cleanup runs.
Reaches-one_cleanup_example :
    (run_now (run_now idle)).unfinished ≡ (if (run_now (run_now idle)).running then 1 else 0)
Reaches-one_cleanup_example =
    Reaches-one_cleanup (run_now (run_now idle)) (ticked (run_now idle) (ticked idle at_start))
