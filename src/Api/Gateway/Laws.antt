-- ===== src/Api/Gateway/Laws.antt =====
-- The route of the readiness, app/api/ready/route.ts.
use semantic_layer_explore.Prelude.{String, Bool, true, false, ◌≡◌, ◌↔◌, refl, arith}
use semantic_layer_explore.Js.Runtime.{Runtime, Environment}
use semantic_layer_explore.Js.Result.{Result, ok, threw}
use semantic_layer_explore.Api.Gateway.{
  GatewayRequest, GatewayResponse, LlmProviderConfiguration, Forwarded, get, or_unavailable,
  checked, ready_of, ready,
}

-- The gateway answers with success and with a body, and the provider's configuration can be read.
pub data IsReady (answer : Result GatewayResponse) (llm : Result LlmProviderConfiguration)
    : Type 0 where
  answers :
      (response : GatewayResponse) (configuration : LlmProviderConfiguration) (body : String)
      → answer ≡ ok response
      → response.is_ok ≡ true
      → llm ≡ ok configuration
      → response.text ≡ ok body
      → IsReady answer llm

module _ (rt : Runtime) (env : Environment) (fetch : GatewayRequest → Result GatewayResponse) where
  abbrev Is200 : Result Forwarded → Type 0
  Is200 out = (or_unavailable out).status ≡ 200

  checked_sound :
      (response : GatewayResponse) (b : Bool) (llm : Result LlmProviderConfiguration)
      (text : Result String)
      → response.is_ok ≡ b
      → response.text ≡ text
      → Is200 (checked rt env fetch b response.status llm text)
      → IsReady (ok response) llm
  checked_sound response true (ok configuration) (ok body) o t h =
      answers response configuration body refl o refl t
  checked_sound response true (ok configuration) (threw e) o t h = absurd (omega (arith, h))
  checked_sound response true (threw e) text o t h = absurd (omega (arith, h))
  checked_sound response false llm text o t h = absurd (omega (arith, h))

  sound :
      (answer : Result GatewayResponse) (llm : Result LlmProviderConfiguration)
      → Is200 (ready_of rt env fetch answer llm)
      → IsReady answer llm
  sound (threw e) llm h = absurd (omega (arith, h))
  sound (ok response) llm h = checked_sound response response.is_ok llm response.text refl refl h

  complete :
      (answer : Result GatewayResponse) (llm : Result LlmProviderConfiguration)
      → IsReady answer llm
      → Is200 (ready_of rt env fetch answer llm)
  complete answer llm (answers response configuration body a o l t) = rw (a, o, l, t) refl

  -- The workspace says that it is ready exactly when the gateway answers its readiness with success
  -- and with a body, and the configuration of the language model's provider can be read.
  pub ready-IsReady_iff :
      (llm : Result LlmProviderConfiguration)
      → ((ready rt env fetch llm).status ≡ 200) ↔ IsReady (fetch (get rt env fetch "/ready")) llm
  unfolding ready
  ready-IsReady_iff llm = (
    sound (fetch (get rt env fetch "/ready")) llm,
    complete (fetch (get rt env fetch "/ready")) llm,
  )
