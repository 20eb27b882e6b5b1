-- ===== src/Worker/Store/Post.antt =====
-- What holds when a call is over, one rule for each way to build it. A postcondition is a predicate
-- of the end of the call, and a rule keeps the equations of the branch that was taken.
use semantic_layer_explore.Prelude.{
  ℕ, Option, List, [], ◌∷◌, String, ◌≡◌, refl, Bool, true, false, if◌then◌else◌,
}
use semantic_layer_explore.Js.Result.{Result, ok, threw}
use semantic_layer_explore.Worker.Store.Tables.{Database}
use semantic_layer_explore.Worker.Store.Task.{World, Task, ◌>>=◌, ◌>>◌, lift, select, update, time}
use semantic_layer_explore.Worker.Store.Transaction.Outcome.{with_faults, query-bind}

module _ {ℓ κ ν} {A : Type ℓ} {B : Type κ} (P : Result B × World → Type ν) where
  after-post :
      (Q : Result A × World → Type ν) (q : Result A × World) (k : A → Task B)
      → Q q
      → ((a : A) (v : World) → Q (ok a, v) → P (k a v))
      → ((e : String) (v : World) → Q (threw e, v) → P (threw e, v))
      → P (((λ (w : World). q) >>= k) q.1)
  unfolding ◌>>=◌
  after-post Q (ok a, v) k h came failed = came a v h
  after-post Q (threw e, v) k h came failed = failed e v h

  pub bind-post :
      (Q : Result A × World → Type ν) (m : Task A) (k : A → Task B) (w : World)
      → Q (m w)
      → ((a : A) (v : World) → Q (ok a, v) → P (k a v))
      → ((e : String) (v : World) → Q (threw e, v) → P (threw e, v))
      → P ((m >>= k) w)
  unfolding ◌>>=◌
  bind-post Q m k w h came failed = after-post Q (m w) k h came failed

  lift-post-go :
      (s r : Result A) (k : A → Task B) (w : World)
      → s ≡ r
      → ((a : A) → s ≡ ok a → P (k a w))
      → ((e : String) → s ≡ threw e → P (threw e, w))
      → P ((lift r >>= k) w)
  unfolding ◌>>=◌
  lift-post-go s (ok a) k w h came failed = came a h
  lift-post-go s (threw e) k w h came failed = failed e h

  pub lift-post :
      (r : Result A) (k : A → Task B) (w : World)
      → ((a : A) → r ≡ ok a → P (k a w))
      → ((e : String) → r ≡ threw e → P (threw e, w))
      → P ((lift r >>= k) w)
  lift-post r k w came failed = lift-post-go r r k w refl came failed

module _ {ℓ ν} {A : Type ℓ} (P : Result A × World → Type ν) where
  if-post-go :
      (c b : Bool) (m n : Task A) (w : World)
      → c ≡ b
      → (c ≡ true → P (m w))
      → (c ≡ false → P (n w))
      → P ((if b then m else n) w)
  if-post-go c true m n w h taken other = taken h
  if-post-go c false m n w h taken other = other h

  pub if-post :
      (b : Bool) (m n : Task A) (w : World)
      → (b ≡ true → P (m w))
      → (b ≡ false → P (n w))
      → P ((if b then m else n) w)
  if-post b m n w taken other = if-post-go b b m n w refl taken other

module _ {ℓ ν} {B : Type ℓ} (P : Result B × World → Type ν) where
  pub select-post :
      {A : Type ℓ} (f : Database → A) (k : A → Task B) (w : World)
      → ((fs : List (Option String)) → P (k (f w.db) (with_faults fs w)))
      → ((fs : List (Option String)) (e : String) → P (threw e, with_faults fs w))
      → P ((select f >>= k) w)
  unfolding select
  select-post f k w came failed = query-bind P (λ db. (f db, db)) k w came failed

module _ {ν} {B : Type 0} (P : Result B × World → Type ν) where
  pub update-post :
      (f : Database → Database) (k : Unit {0} → Task B) (w : World)
      → ((fs : List (Option String)) → P (k tt (record w { db = f w.db; faults = fs })))
      → ((fs : List (Option String)) (e : String) → P (threw e, with_faults fs w))
      → P ((update f >>= k) w)
  unfolding update
  update-post f k w came failed = query-bind P (λ db. (tt, f db)) k w came failed

  pub time-post : (k : ℕ → Task B) (w : World) → P (k w.now w) → P ((time >>= k) w)
  unfolding ◌>>=◌
  time-post k w h = h

-- Updates in a row.
abbrev pub updates : {B : Type 0} → List (Database → Database) → Task B → Task B
updates [] k = k
updates (f ∷ fs) k = update f >> updates fs k

abbrev pub updated : List (Database → Database) → Database → Database
updated [] db = db
updated (f ∷ fs) db = updated fs (f db)

pub updates-post {ν} :
    {B : Type 0} (P : Result B × World → Type ν) (fs : List (Database → Database)) (k : Task B)
    (w : World)
    → ((gs : List (Option String)) → P (k (record w { db = updated fs w.db; faults = gs })))
    → ((e : String) (v : World) → P (threw e, v))
    → P (updates fs k w)
updates-post P [] k w came failed = came w.faults
updates-post P (f ∷ fs) k w came failed =
    update-post P f (λ _. updates fs k) w
      (λ gs. updates-post P fs k (record w { db = f w.db; faults = gs }) came failed)
      (λ gs e. failed e (with_faults gs w))
