-- ===== src/Worker/Store/Keeps.antt =====
-- Invariants of the database, and parts of the world that calls leave alone: one rule for each way
-- to build a call. `Keeps` speaks of the database, `Leaves` of a part that no query touches.
use semantic_layer_explore.Prelude.{String, Option, List, Bool, true, false, if◌then◌else◌}
use semantic_layer_explore.Js.Result.{Result, ok, threw}
use semantic_layer_explore.Worker.Store.Tables.{Database}
use semantic_layer_explore.Worker.Store.Task.{
  World, Task, ◌>>=◌, pure, throw, lift, gets, time, next_uuid, apply, apply_or_throw, after,
  caught, try_catch, external, query, query_or_throw, select, update,
}
use semantic_layer_explore.Worker.Store.Transaction.Outcome.{with_faults, external-cases}

-- The call keeps `P`, whether it returns or throws.
pub record Keeps {ℓ} {A : Type ℓ} (P : World → Type 0) (m : Task A) : Type ℓ where
  pub at : (w : World) → P w → P (m w).1

-- `P` does not read the coming faults and the count of ids.
pub record IsStable (P : World → Type 0) : Type 0 where
  pub faults : (w : World) (fs : List (Option String)) → P w → P (with_faults fs w)
  pub uuids : (w : World) → P w → P (next_uuid w).1

module _ {ℓ} {A : Type ℓ} {P : World → Type 0} where
  pub Keeps-pure : (a : A) → Keeps P (pure a)
  unfolding pure
  Keeps-pure a = record { at = λ w h. h }

  pub Keeps-throw : (e : String) → Keeps P (throw {A = A} e)
  unfolding throw
  Keeps-throw e = record { at = λ w h. h }

  pub Keeps-lift : (r : Result A) → Keeps P (lift r)
  unfolding lift
  Keeps-lift r = record { at = λ w h. h }

  pub Keeps-gets : (f : World → A) → Keeps P (gets f)
  unfolding gets
  Keeps-gets f = record { at = λ w h. h }

  pub Keeps-if : (b : Bool) (m n : Task A) → Keeps P m → Keeps P n → Keeps P (if b then m else n)
  Keeps-if true m n km kn = km
  Keeps-if false m n km kn = kn

  caught-keeps :
      (r : Result A) (f : String → Task A) (w : World)
      → ((e : String) → Keeps P (f e))
      → P w
      → P (caught r f w).1
  caught-keeps (ok a) f w kf h = h
  caught-keeps (threw e) f w kf h = (kf e).at w h

  pub Keeps-try_catch :
      (m : Task A) (f : String → Task A)
      → Keeps P m
      → ((e : String) → Keeps P (f e))
      → Keeps P (try_catch m f)
  unfolding try_catch
  Keeps-try_catch m f km kf = record { at = λ w h. caught-keeps (m w).0 f (m w).1 kf (km.at w h) }

module _ {ℓ κ} {A : Type ℓ} {B : Type κ} {P : World → Type 0} where
  after-keeps :
      (r : Result A) (f : A → Task B) (w : World)
      → ((a : A) → Keeps P (f a))
      → P w
      → P (after r f w).1
  after-keeps (ok a) f w kf h = (kf a).at w h
  after-keeps (threw e) f w kf h = h

  pub Keeps-bind :
      (m : Task A) (f : A → Task B) → Keeps P m → ((a : A) → Keeps P (f a)) → Keeps P (m >>= f)
  unfolding ◌>>=◌
  Keeps-bind m f km kf = record { at = λ w h. after-keeps (m w).0 f (m w).1 kf (km.at w h) }

pub Keeps-time : {P : World → Type 0} → Keeps P time
unfolding time
Keeps-time = record { at = λ w h. h }

module _ {P : World → Type 0} (stable : IsStable P) where
  pub Keeps-next_uuid : Keeps P next_uuid
  Keeps-next_uuid = record { at = stable.uuids }

  pub Keeps-external : Keeps P external
  Keeps-external = record {
    at = λ w h. let (fs, r, e) = external-cases w in rw e (stable.faults w fs h);
  }

  pub Keeps-query {ℓ} :
      {A : Type ℓ} (f : Database → A × Database) → Keeps P (apply f) → Keeps P (query f)
  unfolding query
  Keeps-query f k = Keeps-bind external _ Keeps-external (λ _. k)

  pub Keeps-query_or_throw {ℓ} :
      {A : Type ℓ} (f : Database → Result A × Database)
      → Keeps P (apply_or_throw f)
      → Keeps P (query_or_throw f)
  unfolding query_or_throw
  Keeps-query_or_throw f k = Keeps-bind external _ Keeps-external (λ _. k)

  pub Keeps-select {ℓ} : {A : Type ℓ} (f : Database → A) → Keeps P (select f)
  unfolding select apply
  Keeps-select f = Keeps-query (λ db. (f db, db)) (record { at = λ w h. h })

  pub Keeps-update :
      (f : Database → Database)
      → Keeps P (apply {A = Unit {0}} (λ db. (tt, f db)))
      → Keeps P (update f)
  unfolding update
  Keeps-update f k = Keeps-query (λ db. (tt, f db)) k
