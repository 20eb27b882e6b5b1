-- ===== src/Worker/Store/Task.antt =====
-- A call that may throw. What it wrote before a throw stays written. Calls of PostgreSQL and Kafka
-- can fail at any point: `faults` lists how the coming ones end, the message of the error that one
-- throws or `none`, and once it is used up they all succeed. A failing query has no effect.
use semantic_layer_explore.Prelude.{ℕ, suc, String, Bool, Option, none, some, List, [], ◌∷◌}
use semantic_layer_explore.Js.Json.{Json}
use semantic_layer_explore.Js.Result.{Result, ok, threw}
use semantic_layer_explore.Worker.Store.Tables.{Database, Position}

pub record Message : Type 0 where
  pub topic : String
  pub key : String
  pub value : Json
  pub headers : List (String × String)

pub record World : Type 0 where
  pub db : Database
  pub faults : List (Option String)
  -- the time of the clock while a message is handled
  pub now : ℕ
  -- how many values `randomUUID` has given
  pub uuids : ℕ
  -- what the producers have sent, oldest first
  pub sent : List Message
  -- the offsets committed to the consumer group, oldest first
  pub committed : List Position
  pub dead_letter_connected : Bool
  pub agent_connected : Bool
  -- whether another session holds the advisory lock of the cleanup
  pub lock_taken : Bool

abbrev pub Task {ℓ} : Type ℓ → Type ℓ
Task A = World → Result A × World

unfoldable pub pure {ℓ} : {A : Type ℓ} → A → Task A
pure a w = (ok a, w)

unfoldable pub throw {ℓ} : {A : Type ℓ} → String → Task A
throw e w = (threw e, w)

unfoldable pub lift {ℓ} : {A : Type ℓ} → Result A → Task A
lift r w = (r, w)

unfoldable pub gets {ℓ} : {A : Type ℓ} → (World → A) → Task A
gets f w = (ok (f w), w)

unfoldable pub modify : (World → World) → Task (Unit {0})
modify f w = (ok tt, f w)

-- `new Date()`
unfoldable pub time : Task ℕ
time w = (ok w.now, w)

-- The number of the next `randomUUID()`.
unfoldable pub next_uuid : Task ℕ
next_uuid w = (ok w.uuids, record w { uuids = suc w.uuids })

-- What a query does once its call has come through.
unfoldable pub apply {ℓ} : {A : Type ℓ} → (Database → A × Database) → Task A
apply f w = let (a, db) = f w.db in (ok a, record w { db = db })

unfoldable pub apply_or_throw {ℓ} : {A : Type ℓ} → (Database → Result A × Database) → Task A
apply_or_throw f w = let (r, db) = f w.db in (r, record w { db = db })

abbrev pub after {ℓ κ} : {A : Type ℓ} {B : Type κ} → Result A → (A → Task B) → Task B
after (ok a) f w = f a w
after (threw e) f w = (threw e, w)

-- Opening this opens the calls above too.
infixl 5 ◌>>=◌ ◌>>◌
unfoldable pub ◌>>=◌ {ℓ κ} : {A : Type ℓ} {B : Type κ} → Task A → (A → Task B) → Task B
unfolding pure throw lift gets modify time next_uuid apply apply_or_throw
◌>>=◌ m f w = let (r, w') = m w in after r f w'

abbrev pub ◌>>◌ {ℓ} : {B : Type ℓ} → Task (Unit {0}) → Task B → Task B
m >> k = m >>= λ _. k

abbrev pub caught {ℓ} : {A : Type ℓ} → Result A → (String → Task A) → Task A
caught (ok a) handler w = (ok a, w)
caught (threw e) handler w = handler e w

-- `try { m } catch (error) { handler(error) }`
unfoldable pub try_catch {ℓ} : {A : Type ℓ} → Task A → (String → Task A) → Task A
try_catch m handler w = let (r, w') = m w in caught r handler w'

abbrev fault : Option String → Result (Unit {0})
fault none = ok tt
fault (some e) = threw e

-- One call of PostgreSQL or Kafka.
unfoldable pub external : Task (Unit {0})
external w = elim w.faults [ [] ↦ (ok tt, w) | f ∷ rest ↦ (fault f, record w { faults = rest }) ]

-- A query, with its result and the database that it leaves.
unfoldable pub query {ℓ} : {A : Type ℓ} → (Database → A × Database) → Task A
unfolding external ◌>>=◌
query f = do external; apply f

-- A query that a constraint of a table may refuse.
unfoldable pub query_or_throw {ℓ} : {A : Type ℓ} → (Database → Result A × Database) → Task A
unfolding external ◌>>=◌
query_or_throw f = do external; apply_or_throw f

-- A query that only reads, and one whose result is not read.
unfoldable pub select {ℓ} : {A : Type ℓ} → (Database → A) → Task A
unfolding query
select f = query (λ db. (f db, db))

unfoldable pub update : (Database → Database) → Task (Unit {0})
unfolding query
update f = query (λ db. (tt, f db))
