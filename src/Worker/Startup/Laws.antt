-- ===== src/Worker/Startup/Laws.antt =====
-- How the start of the consumer ends, and that cleanups do not overlap.
use semantic_layer_explore.Prelude.{
  ℕ, zero, suc, ◌+◌, ◌*◌, ◌<◌, min, String, Bool, true, false, some, List, [], ◌∷◌, ◌≡◌, refl,
  arith, inl, inr, ◌⊎◌, if◌then◌else◌, Bool-cases,
}
use semantic_layer_explore.Js.Result.{Result, ok, threw}
use semantic_layer_explore.Worker.Startup.{
  Outlook, RetentionService, Reaches, next_outlook, delay_ms, start_with_retry, at_start, ticked,
  ended, run_now, finish_run,
}

pub record Fails (r : Result (Unit {0})) : Type 0 where
  pub message : String
  pub thrown : r ≡ threw message

-- The delays of so many failed attempts, the first of which has the number `attempt + 1`.
abbrev pub delays_of : ℕ → ℕ → List ℕ
delays_of attempt zero = []
delays_of attempt (suc n) = min 30_000 (1_000 * (attempt + 1)) ∷ delays_of (attempt + 1) n

-- Before the given attempt the signal is silent and every attempt fails.
abbrev pub FailsUntil : ℕ → Outlook → Type 0
FailsUntil zero o = Unit
FailsUntil (suc n) o = (o.aborted 0 ≡ false) × Fails (o.start 0) × FailsUntil n (next_outlook o)

abbrev pub last_of : Bool → Result (Unit {0})
last_of aborted = if aborted then threw "consumer startup aborted" else ok tt

retried_lem :
    (n fuel attempt : ℕ) (o : Outlook) (aborted : Bool)
    → n < fuel
    → FailsUntil n o
    → o.aborted n ≡ aborted
    → (aborted ≡ true) ⊎ (o.start n ≡ ok tt)
    → start_with_retry fuel attempt o
      ≡ record { outcome = some (last_of aborted); delays = delays_of attempt n }
unfolding start_with_retry next_outlook delay_ms
retried_lem n zero attempt o aborted below h silent last = ground arith
retried_lem zero (suc fuel) attempt o true below h silent (inl e) = ground arith
retried_lem zero (suc fuel) attempt o true below h silent (inr e) = ground arith
retried_lem zero (suc fuel) attempt o false below h silent (inl e) = ground arith
retried_lem zero (suc fuel) attempt o false below h silent (inr e) = ground arith
retried_lem (suc n) (suc fuel) attempt o aborted below (quiet, f, rest) silent last =
    let ih =
      retried_lem n fuel (attempt + 1) (next_outlook o) aborted (omega arith) rest silent last in
    cc (quiet, f.thrown, ih)

-- Where the signal is silent for n attempts that fail, and then it says to abort or the next
-- attempt succeeds, the call ends, as soon as its rounds suffice: with the error of an abort or
-- without one. Before each retry it has set one delay, one second longer each time and never longer
-- than thirty.
pub start_with_retry-ends :
    (n fuel : ℕ) (o : Outlook) (aborted : Bool)
    → n < fuel
    → FailsUntil n o
    → o.aborted n ≡ aborted
    → (aborted ≡ true) ⊎ (o.start n ≡ ok tt)
    → start_with_retry fuel 0 o
      ≡ record { outcome = some (last_of aborted); delays = delays_of 0 n }
start_with_retry-ends n fuel o aborted below h silent last =
    retried_lem n fuel 0 o aborted below h silent last

-- In every run of the timer, one cleanup is unfinished where the flag is set and none where it is
-- not: two cleanups of a worker never overlap.
pub Reaches-one_cleanup :
    (s : RetentionService) → Reaches s → s.unfinished ≡ (if s.running then 1 else 0)
unfolding run_now finish_run
Reaches-one_cleanup s at_start = refl
Reaches-one_cleanup s (ticked t r) = ground (arith, Reaches-one_cleanup t r)
Reaches-one_cleanup s (ended t n r e) = elim (Bool-cases t.running) [
  | inl on ↦ ground (arith, Reaches-one_cleanup t r)
  | inr off ↦ ground (arith, Reaches-one_cleanup t r)
]
