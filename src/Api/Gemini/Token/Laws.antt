-- ===== src/Api/Gemini/Token/Laws.antt =====
-- lib/ai/gemini.ts: how long an access token is used.
use semantic_layer_explore.Prelude.{
  ℕ, ◌+◌, ◌/◌, String, Bool, true, false, Option, none, some, ◌≡◌, ◌⊎◌, refl, ltb, Bool-cases, inl,
  inr,
}
use mathlib.Core.Path.{subst}
use semantic_layer_explore.Js.Runtime.{Runtime}
use semantic_layer_explore.Js.Result.{Result, ok, threw}
use semantic_layer_explore.Api.Gemini.Token.{
  ServiceAccountCredentials, OauthAnswer, Oauth, Signer, Cache, get_access_token, unless_fresh,
  request_token, answered, granted, complete, filled, assertion_of,
}

-- The token is kept, and it is the one that the call yields.
abbrev pub Keeps : Cache → Result String → Cache → Type 0
Keeps before (ok value) none = ⊥
Keeps before (ok value) (some token) = token.value ≡ value
Keeps before (threw e) after = after ≡ before

abbrev pub KeepsAll : Cache → Result String × Cache → Type 0
KeepsAll before (r, after) = Keeps before r after

module _ (rt : Runtime) (o : Oauth) (now : ℕ) (cache : Cache) where
  granted-Keeps :
      (a : OauthAnswer) (b : Bool) (value : Option String)
      → KeepsAll cache (granted rt o a cache b value)
  granted-Keeps a true (some value) = refl
  granted-Keeps a true none = refl
  granted-Keeps a false value = refl

  answered-Keeps :
      (answer : Option (Result OauthAnswer)) → KeepsAll cache (answered rt o cache answer)
  answered-Keeps none = refl
  answered-Keeps (some (threw e)) = refl
  answered-Keeps (some (ok a)) = granted-Keeps a a.is_ok (filled a.access_token)

  request_token-Keeps : (s : Option Signer) → KeepsAll cache (request_token rt o now cache s)
  request_token-Keeps none = refl
  request_token-Keeps (some s) =
      answered-Keeps (o.request s.token_uri (assertion_of o s (now / 1000)))

unless_fresh-Keeps :
    (other : Result String × Cache) (now : ℕ) (cache : Cache)
    → KeepsAll cache other
    → KeepsAll cache (unless_fresh other now cache)
unless_fresh-Keeps other now none h = h
unless_fresh-Keeps other now (some t) h = elim (Bool-cases (ltb (now + 60000) t.expires_at)) [
  | inl fresh ↦ rw fresh refl
  | inr old ↦ rw old h
]

get_access_token-Keeps :
    (rt : Runtime) (o : Oauth) (c : ServiceAccountCredentials) (now : ℕ) (cache : Cache)
    → KeepsAll cache (get_access_token rt o c now cache)
unfolding get_access_token
get_access_token-Keeps rt o c now cache =
    unless_fresh-Keeps (request_token rt o now cache (complete c)) now cache
      (request_token-Keeps rt o now cache (complete c))

-- More than a minute is left of the token that is kept.
abbrev pub HasMinute : ℕ → Cache → Type 0
HasMinute now none = ⊥
HasMinute now (some t) = ltb (now + 60000) t.expires_at ≡ true

reused :
    (other : Result String × Cache) (now : ℕ) (value : String) (before after : Cache)
    → Keeps before (ok value) after
    → HasMinute now after
    → unless_fresh other now after ≡ (ok value, after)
reused other now value before none k h = absurd h
reused other now value before (some t) k h = rw (h, k) refl

stale :
    (other fresh : Result String × Cache) (now : ℕ) (cache : Cache)
    → ¬ HasMinute now cache
    → other.0 ≡ fresh.0
    → (unless_fresh other now cache).0 ≡ fresh.0
stale other fresh now none h e = e
stale other fresh now (some t) h e = elim (Bool-cases (ltb (now + 60000) t.expires_at)) [
  | inl young ↦ absurd (h young)
  | inr old ↦ rw old e
]

module _ (rt : Runtime) (o : Oauth) (now : ℕ) (cache : Cache) where
  granted-any :
      (a : OauthAnswer) (b : Bool) (value : Option String)
      → (granted rt o a cache b value).0 ≡ (granted rt o a none b value).0
  granted-any a true (some value) = refl
  granted-any a true none = refl
  granted-any a false value = refl

  answered-any :
      (answer : Option (Result OauthAnswer))
      → (answered rt o cache answer).0 ≡ (answered rt o none answer).0
  answered-any none = refl
  answered-any (some (threw e)) = refl
  answered-any (some (ok a)) = granted-any a a.is_ok (filled a.access_token)

  request_token-any :
      (s : Option Signer) → (request_token rt o now cache s).0 ≡ (request_token rt o now none s).0
  request_token-any none = refl
  request_token-any (some s) = answered-any (o.request s.token_uri (assertion_of o s (now / 1000)))

-- Either more than a minute is left and the token that is kept is used, or it is not, and the call
-- yields what it yields where no token is kept.
abbrev pub Uses : ℕ → String → Cache → Result String × Cache → Result String → Type 0
Uses now value after out unkept =
    (HasMinute now after × (out ≡ (ok value, after))) ⊎ ((¬ HasMinute now after) × (out.0 ≡ unkept))

used :
    (other fresh : Result String × Cache) (now : ℕ) (value : String) (before after : Cache)
    → Keeps before (ok value) after
    → other.0 ≡ fresh.0
    → Uses now value after (unless_fresh other now after) fresh.0
used other fresh now value before none k e = absurd k
used other fresh now value before (some t) k e =
    elim (Bool-cases (ltb (now + 60000) t.expires_at)) [
      | inl young ↦ inl (young, reused other now value before (some t) k young)
      | inr old ↦
          let late : ¬ HasMinute now (some t) = λ h. cc (h, old) in
          inr (late, stale other fresh now (some t) late e)
    ]

-- The token that a call yields is kept. While more than a minute is left of it, a later call, with
-- whatever credentials and whatever the endpoint would answer, yields it and keeps it; from then on
-- a call yields what it yields where no token is kept. A call that fails changes nothing.
pub get_access_token-reuses :
    (rt : Runtime) (o late : Oauth) (c d : ServiceAccountCredentials) (now later : ℕ)
    (cache after : Cache) (value : String)
    → get_access_token rt o c now cache ≡ (ok value, after)
    → Uses later value after
        (get_access_token rt late d later after)
        (get_access_token rt late d later none).0
      × ((before : Cache) (t : ℕ) → KeepsAll before (get_access_token rt late d t before))
unfolding get_access_token
get_access_token-reuses rt o late c d now later cache after value run = (
  used (request_token rt late later after (complete d))
      (request_token rt late later none (complete d)) later value cache after
      (subst (KeepsAll cache) run (get_access_token-Keeps rt o c now cache))
      (request_token-any rt late later after (complete d)),
  λ before t. get_access_token-Keeps rt late d t before,
)
