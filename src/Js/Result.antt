-- ===== src/Js/Result.antt =====
-- What a call yields: a value, or the message of the `Error` that it throws.
use semantic_layer_explore.Prelude.{
  String, ◌≡◌, refl, sym, ap, ◌∙◌, Bool, true, false, if◌then◌else◌,
}
use mathlib.Core.Path.{subst}

pub data Result {ℓ} (A : Type ℓ) : Type ℓ where
  ok : A → Result A
  threw : String → Result A

-- `do` blocks for synchronous code that may throw.
infixl 5 ◌>>=◌ ◌>>◌
unfoldable pub ◌>>=◌ {ℓ κ} : {A : Type ℓ} {B : Type κ} → Result A → (A → Result B) → Result B
ok a >>= f = f a
threw e >>= f = threw e

abbrev pub ◌>>◌ {ℓ} : {B : Type ℓ} → Result (Unit {0}) → Result B → Result B
r >> s = r >>= λ _. s

-- `try { r } catch { other }`
unfoldable pub otherwise {ℓ} : {A : Type ℓ} → Result A → A → Result A
otherwise (ok a) b = ok a
otherwise (threw e) b = ok b

-- The value, where there is one, has the property.
pub record Holds {ℓ κ} {A : Type ℓ} (P : A → Type κ) (r : Result A) : Type (ℓ ⊔ κ) where
  pub at : (a : A) → r ≡ ok a → P a

abbrev got {ℓ} : {A : Type ℓ} → A → Result A → A
got a (ok b) = b
got a (threw e) = a

module _ {ℓ κ} {A : Type ℓ} (P : A → Type κ) where
  pub Holds-ok : (a : A) → P a → Holds P (ok a)
  Holds-ok a h = record { at = λ b e. subst P (ap (got a) e) h }

  pub Holds-threw : (e : String) → Holds P (threw e)
  Holds-threw e = record { at = λ a h. cc h }

  pub Holds-otherwise : (r : Result A) (b : A) → Holds P r → P b → Holds P (otherwise r b)
  unfolding otherwise
  Holds-otherwise (ok a) b h k = h
  Holds-otherwise (threw e) b h k = Holds-ok b k

  pub Holds-if : (b : Bool) (r s : Result A) → Holds P r → Holds P s → Holds P (if b then r else s)
  Holds-if true r s h k = h
  Holds-if false r s h k = k

  pub Holds-itself : (r : Result A) → Holds (λ a. r ≡ ok a) r
  Holds-itself r = record { at = λ a e. e }

module _ {ℓ κ ν} {A B : Type ℓ} (P : A → Type κ) (Q : B → Type ν) where
  pub Holds-bind :
      (r : Result A) (f : A → Result B)
      → Holds P r
      → ((a : A) → P a → Holds Q (f a))
      → Holds Q (r >>= f)
  unfolding ◌>>=◌
  Holds-bind (ok a) f h k = k a (h.at a refl)
  Holds-bind (threw e) f h k = Holds-threw Q e

module _ {ℓ ν} {A B : Type ℓ} (Q : B → Type ν) where
  -- Where nothing is known of the first value.
  pub Holds-bind_any :
      (r : Result A) (f : A → Result B) → ((a : A) → Holds Q (f a)) → Holds Q (r >>= f)
  unfolding ◌>>=◌
  Holds-bind_any (ok a) f k = k a
  Holds-bind_any (threw e) f k = Holds-threw Q e

-- There is a value, and it has the property.
abbrev pub Yields {ℓ κ} : {A : Type ℓ} → (A → Type κ) → Result A → Type (ℓ ⊔ κ)
Yields P r = (a : _) × (r ≡ ok a) × P a

module _ {ℓ κ ν} {A B : Type ℓ} (P : A → Type κ) (Q : B → Type ν) where
  pub Yields-bind :
      (r : Result A) (f : A → Result B)
      → Yields P r
      → ((a : A) → P a → Yields Q (f a))
      → Yields Q (r >>= f)
  unfolding ◌>>=◌
  Yields-bind (ok a) f (b, e, h) k = k a (subst P (sym (ap (got a) e)) h)
  Yields-bind (threw e) f (b, h, p) k = cc h

module _ {ℓ κ} {A : Type ℓ} (P : A → Type κ) where
  pub Yields-otherwise : (r : Result A) (b : A) → Holds P r → P b → Yields P (otherwise r b)
  unfolding otherwise
  Yields-otherwise (ok a) b h k = (a, refl, h.at a refl)
  Yields-otherwise (threw e) b h k = (b, refl, k)

  pub Yields-if :
      (b : Bool) (r s : Result A) → Yields P r → Yields P s → Yields P (if b then r else s)
  Yields-if true r s h k = h
  Yields-if false r s h k = k

module _ {ℓ} {A B : Type ℓ} where
  pub bind-cong :
      {r s : Result A} {f g : A → Result B} → r ≡ s → ((a : A) → f a ≡ g a) → (r >>= f) ≡ (s >>= g)
  unfolding ◌>>=◌
  bind-cong {r} {s} {f} {g} e k = ap (λ (q : Result A). q >>= f) e ∙ go s
    where
      go : (q : Result A) → (q >>= f) ≡ (q >>= g)
      go (ok a) = k a
      go (threw m) = refl
