-- ===== src/Api/Gateway.antt =====
-- The routes that only forward to the gateway: lib/server/go-gateway.ts, and the routes under
-- app/api/graph, app/api/operations, app/api/events/stream and app/api/ready. `fetch` is the
-- gateway; an address is a base and a path.
pub mod Laws
use semantic_layer_explore.Prelude.{
  ℕ, String, Bool, true, false, Option, none, some, ◌==◌, or_else, if◌then◌else◌,
}
use semantic_layer_explore.Js.Text.{◌<>◌}
use semantic_layer_explore.Js.Runtime.{Runtime, Environment}
use semantic_layer_explore.Js.Result.{Result, ok, threw, ◌>>=◌}

pub record GatewayRequest : Type 0 where
  pub method : String
  pub base : String
  pub path : String
  pub body : Option String
  pub last_event_id : Option String

-- A response of the gateway, whose text may fail to come.
pub record GatewayResponse : Type 0 where
  pub is_ok : Bool
  pub status : ℕ
  pub content_type : Option String
  pub text : Result String

pub record LlmProviderConfiguration : Type 0 where
  pub provider : String
  pub configured : Bool
  pub model : String
  pub location : Option String

pub data Content : Type 0 where
  text_content : String → Content
  -- the gateway's own state, and the configuration
  ready_content : String → LlmProviderConfiguration → Content
  -- the stream of the gateway's response
  stream_content : Result String → Content
  error_content : String → Content

pub record Forwarded : Type 0 where
  pub status : ℕ
  pub content : Content
  pub content_type : String

-- `Response.json({ error }, { status })`
abbrev pub failed_with : ℕ → String → Forwarded
failed_with status message = record {
  status = status;
  content = error_content message;
  content_type = "application/json";
}

abbrev or_text : Option String → String → String
or_text none other = other
or_text (some text) other = if text == "" then other else text

abbrev trimmed : Runtime → Option String → Option String
trimmed rt none = none
trimmed rt (some text) = some (rt.trim text)

-- `process.env.GO_GATEWAY_URL?.trim() || "http://localhost:8080"`
unfoldable pub gateway_of : Runtime → Environment → String
gateway_of rt env = or_text (trimmed rt (env "GO_GATEWAY_URL")) "http://localhost:8080"

-- The routes whose content is always sent as JSON, and those that pass the gateway's type on.
pub data ContentType : Type 0 where
  fixed passed_on : ContentType

abbrev pub type_of : ContentType → GatewayResponse → String
type_of fixed response = "application/json"
type_of passed_on response = or_else response.content_type "application/json"

abbrev pub or_unavailable : Result Forwarded → Forwarded
or_unavailable (ok forwarded) = forwarded
or_unavailable (threw e) = failed_with 503 e

module _ (rt : Runtime) (env : Environment) (fetch : GatewayRequest → Result GatewayResponse) where
  abbrev pub get : String → GatewayRequest
  get path = record {
    method = "GET";
    base = gateway_of rt env;
    path = path;
    body = none;
    last_event_id = none;
  }

  -- What the routes under graph and operations do, with the request that each of them makes.
  unfoldable pub forward_text : ContentType → GatewayRequest → Forwarded
  unfolding ◌>>=◌
  forward_text kind request = or_unavailable (
      fetch request >>= λ response. response.text >>= λ body. ok (record {
        status = response.status;
        content = text_content body;
        content_type = type_of kind response;
      }))

  unfoldable pub projection_status : Forwarded
  unfolding forward_text gateway_of
  projection_status = forward_text fixed (get "/graph/projection/status")

  unfoldable pub projection_rebuild : Forwarded
  unfolding forward_text gateway_of
  projection_rebuild =
      forward_text fixed (record (get "/graph/projection/rebuild") { method = "POST" })

  unfoldable pub graph_ontology : Forwarded
  unfolding forward_text gateway_of
  graph_ontology = forward_text fixed (get "/graph/ontology")

  unfoldable pub operations_summary : Forwarded
  unfolding forward_text gateway_of
  operations_summary = forward_text passed_on (get "/operations/summary")

  -- `limit` is the parameter of the request's address, `encode` its place in a query.
  unfoldable pub agent_results : (String → String) → Option String → Forwarded
  unfolding forward_text gateway_of
  agent_results encode limit =
      let value = or_text limit "" in
      forward_text passed_on (
        get (
          if value == ""
          then "/operations/agent-results"
          else "/operations/agent-results?limit=" <> encode value))

  abbrev pub or_error : Result Forwarded → Forwarded
  or_error (ok forwarded) = forwarded
  or_error (threw e) = failed_with 500 e

  abbrev pub streamed : GatewayResponse → Result Forwarded
  streamed response = ok (record {
    status = response.status;
    content = stream_content response.text;
    content_type = or_else response.content_type "text/event-stream; charset=utf-8";
  })

  -- `search` is the query of the request's address.
  unfoldable pub event_stream : String → Option String → Forwarded
  unfolding ◌>>=◌ gateway_of
  event_stream search last_event_id = or_error (
      fetch (record (get ("/operations/events/stream" <> search)) {
        last_event_id = if or_text last_event_id "" == "" then none else last_event_id;
      })
      >>= streamed)

  abbrev pub described : LlmProviderConfiguration → Result String → Result Forwarded
  described configuration (threw e) = threw e
  described configuration (ok body) = ok (record {
    status = 200;
    content = ready_content body configuration;
    content_type = "application/json";
  })

  abbrev pub with_llm : Result LlmProviderConfiguration → Result String → Result Forwarded
  with_llm (threw e) text = threw e
  with_llm (ok configuration) text = described configuration text

  abbrev pub checked : Bool → ℕ → Result LlmProviderConfiguration → Result String → Result Forwarded
  checked false status llm text = threw ("Go Gateway readiness returned " <> rt.decimal status)
  checked true status llm text = with_llm llm text

  abbrev pub ready_of : Result GatewayResponse → Result LlmProviderConfiguration → Result Forwarded
  ready_of (threw e) llm = threw e
  ready_of (ok response) llm = checked response.is_ok response.status llm response.text

  -- `llm` is the configuration of the language model, or the error of reading it; the text
  -- of the gateway's response is its JSON.
  unfoldable pub ready : Result LlmProviderConfiguration → Forwarded
  unfolding gateway_of
  ready llm = or_unavailable (ready_of (fetch (get "/ready")) llm)
