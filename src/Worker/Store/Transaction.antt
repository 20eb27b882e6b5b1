-- ===== src/Worker/Store/Transaction.antt =====
-- The transaction that the methods of `PostgresService` are written in: take a client, `begin`, the
-- body, `commit` or `rollback`; on an error `rollback`, and throw it again; release the client.
pub mod Outcome
pub mod Post
use semantic_layer_explore.Prelude.{
  String, Bool, Option, none, some, List, [], ◌∷◌, ◌≡◌, ◌⊎◌, refl, arith,
}
use semantic_layer_explore.Js.Result.{Result, ok, threw}
use semantic_layer_explore.Worker.Store.Tables.{Database}
use semantic_layer_explore.Worker.Store.Task.{
  World, Task, ◌>>=◌, ◌>>◌, pure, throw, gets, modify, external, try_catch,
}

-- How the body leaves the transaction.
pub data Ending {ℓ} (A : Type ℓ) : Type ℓ where
  commit : A → Ending A
  rollback : A → Ending A

-- What is not committed is undone, also where the query `rollback` itself fails.
unfoldable pub restore : Database → Task (Unit {0})
unfolding ◌>>=◌
restore db = modify (λ w. record w { db = db })

unfoldable pub leave {ℓ} : {A : Type ℓ} → Database → Ending A → Task A
unfolding external restore ◌>>=◌
leave db (commit a) = do external; pure a
leave db (rollback a) = do restore db; external; pure a

unfoldable pub undo {ℓ} : {A : Type ℓ} → Database → String → Task A
unfolding external restore ◌>>=◌
undo db e = do restore db; external; throw e

unfoldable pub transaction {ℓ} : {A : Type ℓ} → Task (Ending A) → Task A
unfolding external leave undo try_catch ◌>>=◌
transaction body = do
  external
  db ← gets (λ w. w.db)
  try_catch (do external; ending ← body; leave db ending) (undo db)
