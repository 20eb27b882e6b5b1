-- ===== src/Worker/Writes/Kept.antt =====
-- A property of the database that every write keeps is kept by every call of the worker.
use semantic_layer_explore.Worker.Store.Tables.{Database}
use semantic_layer_explore.Worker.Store.Frame.{OfDb, OfDb-IsStable, OfDb-transaction}
use semantic_layer_explore.Worker.Writes.{Write, IsKept}

pub OfDb-IsKept :
    (P : Database → Type 0) → ((a b : Database) → Write a b → P a → P b) → IsKept (OfDb P)
OfDb-IsKept P k = record {
  stable = OfDb-IsStable P;
  write = λ w db x h. k w.db db x h;
  send = λ w m h. h;
  connect_agent = λ w h. h;
  connect_dead_letter = λ w h. h;
  in_transaction = λ A body j. OfDb-transaction P body j;
}
