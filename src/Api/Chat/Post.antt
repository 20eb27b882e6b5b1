-- ===== src/Api/Chat/Post.antt =====
-- The handler of app/api/ai/chat/route.ts, with the allowance and the errors of lib/ai/http.ts. The
-- schema of the input is checked by a library: the input is the error of reading the request's
-- JSON, or what the schema yields, `none` where it refuses.
pub mod Laws
use semantic_layer_explore.Prelude.{
  ℕ, ◌≤◌, String, Bool, true, false, Option, none, some, List, [], ◌∷◌, ◌≡◌, refl, All, arith,
  Bool-cases, inl, inr, if◌then◌else◌,
}
use semantic_layer_explore.Js.Runtime.{Runtime, Environment}
use semantic_layer_explore.Js.Result.{Result, ok, threw}
use semantic_layer_explore.Api.Chat.{Fetched, LlmProvider, Session, Answer, Out, started, chat}
use semantic_layer_explore.Api.RateLimit.{ask, Limits, Allowance, consume_daily_allowance}
use semantic_layer_explore.Api.Propose.{
  AiError, zod_error, other_error, Body, Response, rate_limit_headers, ai_error_response,
  limited_response,
}

pub data ChatBody : Type 0 where
  error_body : Body → ChatBody
  answer_body : Answer → ℕ → ChatBody

-- The response, and what was asked and fetched for it.
pub record ChatResponse : Type 0 where
  pub status : ℕ
  pub body : ChatBody
  pub headers : List (String × String)
  pub asked : ℕ
  pub fetched : List String

abbrev pub refusing : Response → ℕ → List String → ChatResponse
refusing r asked fetched = record {
  status = r.status;
  body = error_body r.body;
  headers = r.headers;
  asked = asked;
  fetched = fetched;
}

module _ (rt : Runtime) (fetch : String → Fetched) where
  abbrev pub chat_response : Allowance → Out Answer → ChatResponse
  chat_response allowance (ok answer, s) = record {
    status = 200;
    body = answer_body answer allowance.remaining;
    headers = rate_limit_headers rt allowance.limit allowance.remaining;
    asked = s.asked;
    fetched = s.fetched;
  }
  chat_response allowance (threw e, s) =
      refusing (ai_error_response (other_error e)) s.asked s.fetched

  abbrev pub provided : String → Allowance → Result LlmProvider → ChatResponse
  provided question allowance (threw e) = refusing (ai_error_response (other_error e)) 0 []
  provided question allowance (ok provider) = chat_response allowance (chat fetch provider question)

  abbrev pub allowed : String → Result LlmProvider → Allowance × Limits → ChatResponse × Limits
  allowed question provider (allowance, left) = (
    if allowance.allowed
        then provided question allowance provider
        else refusing (limited_response rt allowance) 0 [],
    left,
  )

  -- `provider` is the answer of `getLlmProvider`.
  unfoldable pub post_chat :
      Environment
      → (String → Option String)
      → ℕ
      → Result LlmProvider
      → Result (Option String)
      → Limits
      → ChatResponse × Limits
  unfolding chat consume_daily_allowance rate_limit_headers ai_error_response limited_response
  post_chat env header now provider (threw e) limits =
      (refusing (ai_error_response (other_error e)) 0 [], limits)
  post_chat env header now provider (ok none) limits =
      (refusing (ai_error_response zod_error) 0 [], limits)
  post_chat env header now provider (ok (some question)) limits =
      allowed question provider (consume_daily_allowance rt env ask header now limits)
