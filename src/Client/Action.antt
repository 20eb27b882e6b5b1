-- ===== src/Client/Action.antt =====
-- What the browser's components share: requests, and handlers that change a component's state, may
-- throw, and keep what they changed before a throw.
use semantic_layer_explore.Prelude.{String, Bool, Option}
use semantic_layer_explore.Js.Json.{Json}
use semantic_layer_explore.Js.Result.{Result, ok, threw}

pub record Request : Type 0 where
  pub method : String
  pub path : String
  pub body : Option Json

-- How a `fetch` ends: it rejects, or it has a response, `ok` or not, whose JSON is read or cannot
-- be read.
pub data Reply : Type 0 where
  rejected : String → Reply
  response : Bool → Result Json → Reply

abbrev pub Action : Type 0 → Type 0 → Type 0
Action S A = S → Result A × S

abbrev pub continue : {S A B : Type 0} → Result A → (A → Action S B) → Action S B
continue (ok a) f s = f a s
continue (threw e) f s = (threw e, s)

infixl 5 ◌>>=◌ ◌>>◌
unfoldable pub ◌>>=◌ : {S A B : Type 0} → Action S A → (A → Action S B) → Action S B
◌>>=◌ m f s = let (r, t) = m s in continue r f t

abbrev pub ◌>>◌ : {S B : Type 0} → Action S (Unit {0}) → Action S B → Action S B
m >> k = m >>= λ _. k

abbrev pub pure : {S A : Type 0} → A → Action S A
pure a s = (ok a, s)

abbrev pub throw : {S A : Type 0} → String → Action S A
throw e s = (threw e, s)

abbrev pub lift : {S A : Type 0} → Result A → Action S A
lift r s = (r, s)

abbrev pub modify : {S : Type 0} → (S → S) → Action S (Unit {0})
modify f s = (ok tt, f s)

-- `try { … } catch (reason) { … }` at the end of a handler.
abbrev pub or_handle : {S : Type 0} → (String → S → S) → Result (Unit {0}) × S → S
or_handle handler (ok x, s) = s
or_handle handler (threw e, s) = handler e s

abbrev pub opened : Reply → Result (Bool × Result Json)
opened (rejected e) = threw e
opened (response is_ok json) = ok (is_ok, json)
