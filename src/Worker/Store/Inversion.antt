-- ===== src/Worker/Store/Inversion.antt =====
-- What is known of the parts of a call that returned.
use semantic_layer_explore.Prelude.{String, ◌≡◌, ◌⊎◌, inl, inr, refl, ap}
use semantic_layer_explore.Js.Result.{Result, ok, threw}
use semantic_layer_explore.Worker.Store.Task.{World, Task, ◌>>=◌, after, caught, try_catch}

module _ {ℓ κ} {A : Type ℓ} {B : Type κ} where
  after-eq-ok :
      (p : Result A × World) (f : A → Task B) {b : B} {v : World}
      → after p.0 f p.1 ≡ (ok b, v)
      → (a : A) × (u : World) × (p ≡ (ok a, u)) × (f a u ≡ (ok b, v))
  after-eq-ok (ok a, u) f h = (a, u, refl, h)
  after-eq-ok (threw e, u) f h = cc (ap (λ (q : Result B × World). q.0) h)

  pub bind-eq-ok :
      (m : Task A) (f : A → Task B) (w : World) {b : B} {v : World}
      → (m >>= f) w ≡ (ok b, v)
      → (a : A) × (u : World) × (m w ≡ (ok a, u)) × (f a u ≡ (ok b, v))
  unfolding ◌>>=◌
  bind-eq-ok m f w h = after-eq-ok (m w) f h

  abbrev rethrown : Result B × World → Result A × World
  rethrown (ok b, v) = (threw "", v)
  rethrown (threw e, v) = (threw e, v)

  after-eq-threw :
      (p : Result A × World) (f : A → Task B) {e : String} {v : World}
      → after p.0 f p.1 ≡ (threw e, v)
      → (p ≡ (threw e, v)) ⊎ ((a : A) × (u : World) × (p ≡ (ok a, u)) × (f a u ≡ (threw e, v)))
  after-eq-threw (ok a, u) f h = inr (a, u, refl, h)
  after-eq-threw (threw e, u) f h = inl (ap rethrown h)

  pub bind-eq-threw :
      (m : Task A) (f : A → Task B) (w : World) {e : String} {v : World}
      → (m >>= f) w ≡ (threw e, v)
      → (m w ≡ (threw e, v)) ⊎ ((a : A) × (u : World) × (m w ≡ (ok a, u)) × (f a u ≡ (threw e, v)))
  unfolding ◌>>=◌
  bind-eq-threw m f w h = after-eq-threw (m w) f h

module _ {ℓ} {A : Type ℓ} where
  -- How `try { m } catch (e) { f(e) }` came to its end.
  caught-cases :
      (p : Result A × World) (f : String → Task A)
      → ((a : A) × (u : World) × (p ≡ (ok a, u)) × (caught p.0 f p.1 ≡ (ok a, u)))
        ⊎ ((e : String) × (u : World) × (p ≡ (threw e, u)) × (caught p.0 f p.1 ≡ f e u))
  caught-cases (ok a, u) f = inl (a, u, refl, refl)
  caught-cases (threw e, u) f = inr (e, u, refl, refl)

  pub try_catch-cases :
      (m : Task A) (f : String → Task A) (w : World)
      → ((a : A) × (u : World) × (m w ≡ (ok a, u)) × (try_catch m f w ≡ (ok a, u)))
        ⊎ ((e : String) × (u : World) × (m w ≡ (threw e, u)) × (try_catch m f w ≡ f e u))
  unfolding try_catch
  try_catch-cases m f w = caught-cases (m w) f
