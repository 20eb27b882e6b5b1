-- ===== src/Api/Gemini/Token.antt =====
-- The access token of lib/ai/gemini.ts: it is kept and used until a minute before it expires.
pub mod Laws
use semantic_layer_explore.Prelude.{
  ℕ, ◌+◌, ◌*◌, ◌/◌, String, Bool, true, false, ◌&&◌, ◌||◌, not, Option, none, some, List, [], ◌∷◌,
  ◌==◌, eqb, ltb, if◌then◌else◌,
}
use semantic_layer_explore.Js.Number.{of_nat}
use semantic_layer_explore.Js.Json.{Json, string, number, object, Fields, field, end}
use semantic_layer_explore.Js.Text.{◌<>◌}
use semantic_layer_explore.Js.Runtime.{Runtime}
use semantic_layer_explore.Js.Result.{Result, ok, threw}

pub record ServiceAccountCredentials : Type 0 where
  pub client_email : Option String
  pub private_key : Option String
  pub project_id : Option String
  pub token_uri : Option String

pub record AccessToken : Type 0 where
  pub value : String
  pub expires_at : ℕ

-- The three parts that a token is asked for with; an empty text counts as missing.
pub record Signer : Type 0 where
  pub client_email : String
  pub private_key : String
  pub token_uri : String

abbrev filled : Option String → Option String
filled none = none
filled (some text) = if text == "" then none else some text

abbrev signer_of : Option String → Option String → Option String → Option Signer
signer_of (some email) (some key) (some uri) =
    some (record { client_email = email; private_key = key; token_uri = uri })
signer_of _ _ _ = none

unfoldable pub complete : ServiceAccountCredentials → Option Signer
complete c = signer_of (filled c.client_email) (filled c.private_key) (filled c.token_uri)

-- The answer of the token's endpoint: the status, and the fields that are read.
pub record OauthAnswer : Type 0 where
  pub is_ok : Bool
  pub status : ℕ
  pub access_token : Option String
  -- in seconds
  pub expires_in : Option ℕ
  pub error_description : Option String

-- What the code takes from outside: the encoding of JSON in base64url, the signature, the endpoint,
-- whose request can fail, and the time behind its answer.
pub record Oauth : Type 0 where
  pub encode : Json → String
  pub sign : String → String → String
  pub request : String → String → Option (Result OauthAnswer)
  pub now_after : ℕ

abbrev header_json : Json
header_json = object (field "alg" (string "RS256") (field "typ" (string "JWT") end))

unfoldable pub claims_json : Signer → ℕ → Json
claims_json s issued_at = object (
    field "iss" (string s.client_email) (
      field "scope" (string "https://www.googleapis.com/auth/cloud-platform") (
        field "aud" (string s.token_uri) (
          field "iat" (number (of_nat issued_at))
            (field "exp" (number (of_nat (issued_at + 3600))) end)))))

unfoldable pub assertion_of : Oauth → Signer → ℕ → String
unfolding claims_json
assertion_of o s issued_at =
    let unsigned = o.encode header_json <> ("." <> o.encode (claims_json s issued_at)) in
    unsigned <> ("." <> o.sign unsigned s.private_key)

-- `expires_in || 3600`
abbrev lifetime_seconds : Option ℕ → ℕ
lifetime_seconds none = 3600
lifetime_seconds (some n) = if eqb n 0 then 3600 else n

abbrev pub Cache : Type 0
Cache = Option AccessToken

abbrev refusal : Runtime → OauthAnswer → Option String → String
refusal rt a none = "Google OAuth failed with " <> (rt.decimal a.status <> ".")
refusal rt a (some description) = description

abbrev pub unless_fresh : Result String × Cache → ℕ → Cache → Result String × Cache
unless_fresh other now none = other
unless_fresh other now (some t) =
    if ltb (now + 60000) t.expires_at then (ok t.value, some t) else other

module _ (rt : Runtime) (o : Oauth) where
  -- A token that is there, in a response that is `ok`.
  abbrev pub granted : OauthAnswer → Cache → Bool → Option String → Result String × Cache
  granted a cache true (some value) = (
    ok value,
    some
        (record { value = value; expires_at = o.now_after + lifetime_seconds a.expires_in * 1000 }),
  )
  granted a cache _ _ = (threw (refusal rt a (filled a.error_description)), cache)

  abbrev pub answered : Cache → Option (Result OauthAnswer) → Result String × Cache
  answered cache none = (threw "OAuth token request failed.", cache)
  answered cache (some (threw e)) = (threw e, cache)
  answered cache (some (ok a)) = granted a cache a.is_ok (filled a.access_token)

  abbrev pub request_token : ℕ → Cache → Option Signer → Result String × Cache
  request_token now cache none =
      (threw "Google Cloud service account credentials are incomplete.", cache)
  request_token now cache (some s) =
      answered cache (o.request s.token_uri (assertion_of o s (now / 1000)))

  unfoldable pub get_access_token : ServiceAccountCredentials → ℕ → Cache → Result String × Cache
  unfolding complete assertion_of
  get_access_token credentials now cache =
      unless_fresh (request_token now cache (complete credentials)) now cache
