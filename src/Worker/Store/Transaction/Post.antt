-- ===== src/Worker/Store/Transaction/Post.antt =====
-- A postcondition on the result and the database that the calls in a transaction establish.
use semantic_layer_explore.Prelude.{String, Option, List, ◌≡◌}
use mathlib.Core.Path.{subst, sym}
use semantic_layer_explore.Js.Result.{Result, ok, threw}
use semantic_layer_explore.Worker.Store.Tables.{Database}
use semantic_layer_explore.Worker.Store.Task.{World, Task}
use semantic_layer_explore.Worker.Store.Transaction.{Ending, commit, rollback, transaction}
use semantic_layer_explore.Worker.Store.Transaction.Outcome.{
  with_faults, Outcome, committed, rolled_back, failed, transaction-Outcome,
}

module _ {ℓ} {A : Type ℓ} (P : Result A → Database → Type 0) (before : Database) where
  -- What the body of the transaction has to establish.
  abbrev pub Inside : Result (Ending A) × World → Type 0
  Inside (ok (commit a), v) = P (ok a) v.db
  Inside (ok (rollback a), v) = P (ok a) before
  Inside (threw e, v) = Unit

  outcome-post :
      (body : Task (Ending A)) (w : World) (q : Result A × World)
      → w.db ≡ before
      → ((fs : List (Option String)) → Inside (body (with_faults fs w)))
      → ((e : String) → P (threw e) before)
      → Outcome body w q
      → P q.0 q.1.db
  outcome-post body w q same k j (committed fs gs a v e) = subst Inside e (k fs)
  outcome-post body w q same k j (rolled_back fs gs a v e) =
      subst (P (ok a)) (sym same) (subst Inside e (k fs))
  outcome-post body w q same k j (failed e v left) = rw (left, same) (j e)

  pub transaction-post :
      (body : Task (Ending A)) (w : World)
      → w.db ≡ before
      → ((fs : List (Option String)) → Inside (body (with_faults fs w)))
      → ((e : String) → P (threw e) before)
      → P (transaction body w).0 (transaction body w).1.db
  transaction-post body w same k j = outcome-post body w _ same k j (transaction-Outcome body w)
