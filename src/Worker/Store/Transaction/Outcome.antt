-- ===== src/Worker/Store/Transaction/Outcome.antt =====
-- What a transaction comes to, whichever of its calls fail: the body ran and its changes are there,
-- or the database is the one from before.
use semantic_layer_explore.Prelude.{String, Option, none, some, List, [], ◌∷◌, ◌≡◌, refl, arith}
use semantic_layer_explore.Js.Result.{Result, ok, threw}
use semantic_layer_explore.Worker.Store.Tables.{Database}
use semantic_layer_explore.Worker.Store.Task.{
  World, Task, ◌>>=◌, external, try_catch, after, caught, pure, throw, query, apply,
}
use semantic_layer_explore.Worker.Store.Transaction.{
  Ending, commit, rollback, restore, leave, undo, transaction,
}

abbrev pub with_faults : List (Option String) → World → World
with_faults fs w = record w { faults = fs }

-- A call of the outside changes the list of coming faults at most.
pub external-cases :
    (w : World)
    → (fs : List (Option String)) × (r : Result (Unit {0})) × (external w ≡ (r, with_faults fs w))
unfolding external
external-cases w = go w.faults refl
  where
    go :
        (f : List (Option String))
        → w.faults ≡ f
        → (fs : List (Option String)) × (r : Result (Unit {0})) × (external w
            ≡ (r, with_faults fs w))
    go [] e = ([], ok tt, ground arith)
    go (none ∷ fs) e = (fs, ok tt, rw e)
    go (some m ∷ fs) e = (fs, threw m, rw e)

-- To show a property of what runs behind a call of the outside, show it for each end of the call.
pub external-bind {ℓ κ} :
    {B : Type ℓ} (P : Result B × World → Type κ) (k : Unit {0} → Task B) (w : World)
    → ((fs : List (Option String)) → P (k tt (with_faults fs w)))
    → ((fs : List (Option String)) (e : String) → P (threw e, with_faults fs w))
    → P ((external >>= k) w)
unfolding ◌>>=◌
external-bind {B} P k w came failed = go (external-cases w)
  where
    go :
        (fs : List (Option String)) × (r : Result (Unit {0})) × (external w ≡ (r, with_faults fs w))
        → P ((external >>= k) w)
    go (fs, ok _, h) = rw h (came fs)
    go (fs, threw m, h) = rw h (failed fs m)

-- The same for what runs behind a query.
pub query-bind {ℓ κ} :
    {A B : Type ℓ} (P : Result B × World → Type κ) (f : Database → A × Database) (k : A → Task B)
    (w : World)
    → ((fs : List (Option String)) → P (k (f w.db).0 (record w { db = (f w.db).1; faults = fs })))
    → ((fs : List (Option String)) (e : String) → P (threw e, with_faults fs w))
    → P ((query f >>= k) w)
unfolding query ◌>>=◌
query-bind P f k w came failed =
    external-bind (λ q. P (after q.0 k q.1)) (λ _. apply f) w came failed

pub data Outcome {ℓ} {A : Type ℓ} (body : Task (Ending A)) (w : World)
    : Result A × World → Type ℓ where
  committed :
      (fs gs : List (Option String)) (a : A) (v : World)
      → body (with_faults fs w) ≡ (ok (commit a), v)
      → Outcome body w (ok a, with_faults gs v)
  rolled_back :
      (fs gs : List (Option String)) (a : A) (v : World)
      → body (with_faults fs w) ≡ (ok (rollback a), v)
      → Outcome body w (ok a, record v { db = w.db; faults = gs })
  failed : (e : String) (v : World) → v.db ≡ w.db → Outcome body w (threw e, v)

module _ {ℓ} {A : Type ℓ} (body : Task (Ending A)) (w : World) where
  undo-Outcome : (e : String) (v : World) → Outcome body w (undo {A = A} w.db e v)
  unfolding undo restore ◌>>=◌
  undo-Outcome e v =
      external-bind (Outcome body w) (λ _. throw e) (record v { db = w.db }) (λ fs. failed e _ refl)
        (λ fs m. failed m _ refl)

  abbrev attempt : Ending A → Task A
  attempt ending = try_catch (leave w.db ending) (undo w.db)

  leave-Outcome :
      (fs : List (Option String)) (ending : Ending A) (v : World)
      → body (with_faults fs w) ≡ (ok ending, v)
      → Outcome body w (attempt ending v)
  unfolding leave try_catch restore ◌>>=◌
  leave-Outcome fs (commit a) v h =
      external-bind (λ p. Outcome body w (caught p.0 (undo w.db) p.1)) (λ _. pure a) v
        (λ gs. committed fs gs a v h) (λ gs m. undo-Outcome m _)
  leave-Outcome fs (rollback a) v h =
      external-bind (λ p. Outcome body w (caught p.0 (undo w.db) p.1)) (λ _. pure a)
        (record v { db = w.db }) (λ gs. rolled_back fs gs a v h) (λ gs m. undo-Outcome m _)

  abbrev run : Result (Ending A) × World → Result A × World
  run p = let q = after p.0 (leave w.db) p.1 in caught q.0 (undo w.db) q.1

  run-Outcome :
      (fs : List (Option String)) (p : Result (Ending A) × World)
      → body (with_faults fs w) ≡ p
      → Outcome body w (run p)
  unfolding try_catch
  run-Outcome fs (ok ending, v) h = leave-Outcome fs ending v h
  run-Outcome fs (threw e, v) h = undo-Outcome e v

  -- A transaction that returns has run its body to the end, and leaves the changes of the body or,
  -- after a rollback, the database from before. One that throws leaves the database from before.
  pub transaction-Outcome : Outcome body w (transaction body w)
  unfolding transaction try_catch ◌>>=◌
  transaction-Outcome =
      external-bind (Outcome body w) _ w
        (λ fs.
          external-bind (λ p. Outcome body w (caught p.0 (undo w.db) p.1))
            (λ _. body >>= leave w.db) (with_faults fs w)
            (λ gs. run-Outcome gs (body (with_faults gs w)) refl)
            (λ gs m. undo-Outcome m (with_faults gs w)))
        (λ fs m. failed m _ refl)
