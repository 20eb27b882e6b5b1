-- ===== src/Worker/Store/Frame.antt =====
-- The two kinds of property that the calls of the worker keep: an invariant of the database, and
-- what holds of the parts that no query touches.
use semantic_layer_explore.Prelude.{String, List, ◌≡◌}
use mathlib.Core.Path.{subst}
use semantic_layer_explore.Js.Result.{Result}
use semantic_layer_explore.Worker.Store.Tables.{Database, Position}
use semantic_layer_explore.Worker.Store.Task.{World, Task, ◌>>=◌, next_uuid, apply, apply_or_throw}
use semantic_layer_explore.Worker.Store.Transaction.{Ending, transaction}
use semantic_layer_explore.Worker.Store.Transaction.Outcome.{
  with_faults, Outcome, committed, rolled_back, failed, transaction-Outcome,
}
use semantic_layer_explore.Worker.Store.Transaction.{commit, rollback, restore, leave, undo}
use semantic_layer_explore.Worker.Store.Keeps.{
  Keeps, IsStable, Keeps-pure, Keeps-throw, Keeps-lift, Keeps-gets, Keeps-if, Keeps-try_catch,
  Keeps-bind, Keeps-time, Keeps-next_uuid, Keeps-external, Keeps-query, Keeps-query_or_throw,
  Keeps-select, Keeps-update,
}

pub ruleset keeps_rules = (
  Keeps-pure, Keeps-throw, Keeps-lift, Keeps-gets, Keeps-if, Keeps-try_catch, Keeps-bind,
  Keeps-time, Keeps-next_uuid, Keeps-external, Keeps-query, Keeps-query_or_throw, Keeps-select,
  Keeps-update,
)

abbrev pub OfDb : (Database → Type 0) → World → Type 0
OfDb P w = P w.db

abbrev pub Offsets : List Position → World → Type 0
Offsets ps w = w.committed ≡ ps

module _ (P : Database → Type 0) where
  pub OfDb-IsStable : IsStable (OfDb P)
  unfolding next_uuid
  OfDb-IsStable = record { faults = λ w fs h. h; uuids = λ w h. h }

  pub OfDb-apply {ℓ} :
      {A : Type ℓ} (f : Database → A × Database)
      → ((db : Database) → P db → P (f db).1)
      → Keeps (OfDb P) (apply f)
  unfolding apply
  OfDb-apply f k = record { at = λ w h. k w.db h }

  pub OfDb-apply_or_throw {ℓ} :
      {A : Type ℓ} (f : Database → Result A × Database)
      → ((db : Database) → P db → P (f db).1)
      → Keeps (OfDb P) (apply_or_throw f)
  unfolding apply_or_throw
  OfDb-apply_or_throw f k = record { at = λ w h. k w.db h }

  outcome-keeps {ℓ} :
      {A : Type ℓ} {body : Task (Ending A)} {w : World} {p : Result A × World}
      → Keeps (OfDb P) body
      → P w.db
      → Outcome body w p
      → P p.1.db
  outcome-keeps {w} k h (committed fs gs a v e) =
      subst (λ (q : Result _ × World). P q.1.db) e (k.at (with_faults fs w) h)
  outcome-keeps k h (rolled_back fs gs a v e) = h
  outcome-keeps k h (failed e v same) = rw same h

  pub OfDb-transaction {ℓ} :
      {A : Type ℓ} (body : Task (Ending A))
      → Keeps (OfDb P) body
      → Keeps (OfDb P) (transaction body)
  OfDb-transaction body k = record { at = λ w h. outcome-keeps k h (transaction-Outcome body w) }

module _ (ps : List Position) where
  pub Offsets-IsStable : IsStable (Offsets ps)
  unfolding next_uuid
  Offsets-IsStable = record { faults = λ w fs h. h; uuids = λ w h. h }

  pub Offsets-apply {ℓ} : {A : Type ℓ} (f : Database → A × Database) → Keeps (Offsets ps) (apply f)
  unfolding apply
  Offsets-apply f = record { at = λ w h. h }

  pub Offsets-apply_or_throw {ℓ} :
      {A : Type ℓ} (f : Database → Result A × Database) → Keeps (Offsets ps) (apply_or_throw f)
  unfolding apply_or_throw
  Offsets-apply_or_throw f = record { at = λ w h. h }

  Offsets-restore : (db : Database) → Keeps (Offsets ps) (restore db)
  unfolding restore ◌>>=◌
  Offsets-restore db = record { at = λ w h. h }

  Offsets-leave {ℓ} :
      {A : Type ℓ} (db : Database) (ending : Ending A) → Keeps (Offsets ps) (leave db ending)
  unfolding leave
  Offsets-leave db (commit a) = search (keeps_rules, Offsets-IsStable)
  Offsets-leave db (rollback a) = search (keeps_rules, Offsets-IsStable, Offsets-restore)

  Offsets-undo {ℓ} :
      {A : Type ℓ} (db : Database) (e : String) → Keeps (Offsets ps) (undo {A = A} db e)
  unfolding undo
  Offsets-undo db e = search (keeps_rules, Offsets-IsStable, Offsets-restore)

  pub Offsets-transaction {ℓ} :
      {A : Type ℓ} (body : Task (Ending A))
      → Keeps (Offsets ps) body
      → Keeps (Offsets ps) (transaction body)
  unfolding transaction
  Offsets-transaction body k =
      search (keeps_rules, Offsets-IsStable, Offsets-leave, Offsets-undo) depth 8
