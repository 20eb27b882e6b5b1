-- ===== src/Api/Gemini/Vertex/Laws.antt =====
-- lib/ai/gemini.ts: the configuration says whether there is a client.
use semantic_layer_explore.Prelude.{
  String, Bool, true, false, ◌&&◌, Option, none, some, ◌≡◌, refl, ◌==◌, Bool-cases, inl, inr,
}
use semantic_layer_explore.Js.Runtime.{Runtime, Environment}
use semantic_layer_explore.Js.Result.{Result, ok, threw, ◌>>=◌}
use semantic_layer_explore.Api.Gemini.Token.{ServiceAccountCredentials}
use semantic_layer_explore.Api.Gemini.Vertex.{
  Files, GeminiConfiguration, GeminiClient, get_gemini_configuration, get_gemini_client,
  get_gemini_model, client_of, or_text, trimmed, project_of, configuration_from, load_credentials,
  is_filled, is_there,
}

-- There is a client.
abbrev pub has_client : Result GeminiClient → Bool
has_client (ok client) = true
has_client (threw e) = false

client_of-configured :
    (credentials : Option ServiceAccountCredentials) (project location model : String)
    → has_client (
        client_of
          (record {
            configured = is_filled project && is_there credentials;
            credentials = credentials;
            project = project;
            location = location;
            model = model;
          })
          credentials)
      ≡ (is_filled project && is_there credentials)
client_of-configured none project location model = elim (Bool-cases (project == "")) [
  | inl e ↦ rw e refl
  | inr e ↦ rw e refl
]
client_of-configured (some c) project location model = elim (Bool-cases (project == "")) [
  | inl e ↦ rw e refl
  | inr e ↦ rw e refl
]

abbrev configured : Result GeminiConfiguration → Bool
configured (ok config) = config.configured
configured (threw e) = false

from_credentials :
    (rt : Runtime) (env : Environment) (r : Result (Option ServiceAccountCredentials))
    → has_client (configuration_from rt env r >>= λ config. client_of config config.credentials)
      ≡ configured (configuration_from rt env r)
unfolding ◌>>=◌
from_credentials rt env (threw e) = refl
from_credentials rt env (ok c) =
    client_of-configured c (or_text (trimmed rt (env "GOOGLE_CLOUD_PROJECT")) (project_of rt c))
      (or_text (trimmed rt (env "GOOGLE_CLOUD_LOCATION")) "global") (get_gemini_model rt env)

module _ (rt : Runtime) (env : Environment) (files : Files) where
  -- The provider is said to be configured exactly where a client can be made.
  pub get_gemini_client-configured :
      has_client (get_gemini_client rt env files)
      ≡ configured (get_gemini_configuration rt env files)
  unfolding get_gemini_client get_gemini_configuration ◌>>=◌
  get_gemini_client-configured = from_credentials rt env (load_credentials rt env files)
