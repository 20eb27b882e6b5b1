-- ===== src/Api/Gemini/Vertex.antt =====
-- lib/ai/gemini.ts: the configuration, and a call of the client, from the token to the response.
pub mod Laws
use semantic_layer_explore.Prelude.{
  ℕ, String, Bool, true, false, ◌&&◌, Option, none, some, List, [], ◌∷◌, ◌==◌, if◌then◌else◌,
}
use semantic_layer_explore.Js.Json.{Json, Fields, array, field}
use semantic_layer_explore.Js.Text.{◌<>◌}
use semantic_layer_explore.Js.Runtime.{Runtime, Environment}
use semantic_layer_explore.Js.Result.{Result, ok, threw, ◌>>=◌}
use semantic_layer_explore.Api.Gemini.Token.{
  ServiceAccountCredentials, Oauth, Cache, get_access_token,
}
use semantic_layer_explore.Api.Gemini.Request.{
  VertexAnswer, GeminiResponse, request_config, vertex_response,
}

-- `text || other`, for a text that may be missing
abbrev pub or_text : Option String → String → String
or_text none other = other
or_text (some text) other = if text == "" then other else text

abbrev pub trimmed : Runtime → Option String → Option String
trimmed rt none = none
trimmed rt (some text) = some (rt.trim text)

unfoldable pub get_gemini_model : Runtime → Environment → String
get_gemini_model rt env = or_text (trimmed rt (env "GEMINI_MODEL")) "gemini-3.5-flash-lite"

-- The files: the place of a path, the text of a file that exists, or the error of reading it, and the
-- fields of credentials in their JSON.
pub record Files : Type 0 where
  pub resolve : String → String
  pub read : String → Option (Result String)
  pub read_credentials : Json → ServiceAccountCredentials

abbrev parsed : Runtime → Files → Result String → Result (Option ServiceAccountCredentials)
parsed rt files (threw e) = threw e
parsed rt files (ok text) = elim (rt.json_parse text) [
  | none ↦ threw (rt.syntax_message text)
  | some json ↦ ok (some (files.read_credentials json))
]

abbrev credentials_in :
    Runtime → Files → Option (Result String) → Result (Option ServiceAccountCredentials)
credentials_in rt files none = ok none
credentials_in rt files (some text) = parsed rt files text

unfoldable pub load_credentials :
    Runtime → Environment → Files → Result (Option ServiceAccountCredentials)
load_credentials rt env files =
    let path = or_text (trimmed rt (env "GOOGLE_APPLICATION_CREDENTIALS")) "" in
    if path == "" then ok none else credentials_in rt files (files.read (files.resolve path))

pub record GeminiConfiguration : Type 0 where
  pub configured : Bool
  pub credentials : Option ServiceAccountCredentials
  -- `undefined` and the empty text are alike here
  pub project : String
  pub location : String
  pub model : String

abbrev pub project_of : Runtime → Option ServiceAccountCredentials → String
project_of rt none = ""
project_of rt (some c) = or_text (trimmed rt c.project_id) ""

abbrev pub is_there : Option ServiceAccountCredentials → Bool
is_there none = false
is_there (some c) = true

abbrev pub is_filled : String → Bool
is_filled text = if text == "" then false else true

abbrev pub configuration_of :
    Runtime → Environment → Option ServiceAccountCredentials → String → GeminiConfiguration
configuration_of rt env credentials project = record {
  configured = is_filled project && is_there credentials;
  credentials = credentials;
  project = project;
  location = or_text (trimmed rt (env "GOOGLE_CLOUD_LOCATION")) "global";
  model = get_gemini_model rt env;
}

abbrev pub configuration_from :
    Runtime → Environment → Result (Option ServiceAccountCredentials) → Result GeminiConfiguration
configuration_from rt env (threw e) = threw e
configuration_from rt env (ok credentials) = ok (
    configuration_of rt env credentials
      (or_text (trimmed rt (env "GOOGLE_CLOUD_PROJECT")) (project_of rt credentials)))

unfoldable pub get_gemini_configuration : Runtime → Environment → Files → Result GeminiConfiguration
unfolding load_credentials get_gemini_model
get_gemini_configuration rt env files = configuration_from rt env (load_credentials rt env files)

-- What a client is made of.
pub record GeminiClient : Type 0 where
  pub credentials : ServiceAccountCredentials
  pub project : String
  pub location : String

abbrev pub client_of : GeminiConfiguration → Option ServiceAccountCredentials → Result GeminiClient
client_of config none = threw "Google Cloud credentials are unavailable."
client_of config (some c) =
    if config.project == ""
    then threw "The Google Cloud project is missing from the service account credentials."
    else ok (record { credentials = c; project = config.project; location = config.location })

unfoldable pub get_gemini_client : Runtime → Environment → Files → Result GeminiClient
unfolding ◌>>=◌ get_gemini_configuration
get_gemini_client rt env files =
    get_gemini_configuration rt env files >>= λ config. client_of config config.credentials

-- `encode` is `encodeURIComponent`; `post` takes the address, the token and the body.
pub record Vertex : Type 0 where
  pub encode : String → String
  pub post : String → String → Json → Option (Result VertexAnswer)

unfoldable pub endpoint : Vertex → GeminiClient → String → String
endpoint v client model =
    "https://aiplatform.googleapis.com/v1/projects/"
    <> (v.encode client.project
        <> ("/locations/"
            <> (v.encode client.location
                <> ("/publishers/google/models/" <> (v.encode model <> ":generateContent")))))

abbrev with_token :
    Runtime → Vertex → String → Json → Result String × Cache → Result GeminiResponse × Cache
with_token rt v address body (threw e, cache) = (threw e, cache)
with_token rt v address body (ok token, cache) =
    (vertex_response rt (v.post address token body), cache)

unfoldable pub generate_content :
    Runtime
    → Oauth
    → Vertex
    → GeminiClient
    → String
    → Json
    → Fields
    → ℕ
    → Cache
    → Result GeminiResponse × Cache
unfolding get_access_token endpoint request_config vertex_response
generate_content rt o v client model contents config now cache =
    with_token rt v (endpoint v client model)
      (Json.object (field "contents" contents (request_config config)))
      (get_access_token rt o client.credentials now cache)
