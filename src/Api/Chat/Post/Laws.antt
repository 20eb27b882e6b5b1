-- ===== src/Api/Chat/Post/Laws.antt =====
-- app/api/ai/chat/route.ts: what a request can cause.
use semantic_layer_explore.Prelude.{
  ℕ, ◌≤◌, String, false, Option, none, some, [], ◌≡◌, refl, All, Member, arith, Bool-cases, inl,
  inr,
}
use semantic_layer_explore.Js.Runtime.{Runtime, Environment}
use semantic_layer_explore.Js.Result.{Result, ok, threw}
use semantic_layer_explore.Api.Chat.{Fetched, LlmProvider, Answer, Out, chat}
use semantic_layer_explore.Api.Chat.Laws.{paths, chat-Within}
use semantic_layer_explore.Api.RateLimit.{ask, Limits, Allowance, consume_daily_allowance}
use semantic_layer_explore.Api.Propose.{limited_response}
use semantic_layer_explore.Api.Chat.Post.{ChatResponse, chat_response, provided, allowed, post_chat}

module _ (rt : Runtime) (fetch : String → Fetched) where
  abbrev pub IsBounded : ChatResponse → Type 0
  IsBounded r = (r.asked ≤ 7) × All (λ path. Member path paths) r.fetched

  chat_response-IsBounded :
      (allowance : Allowance) (out : Out Answer)
      → (out.1.asked ≤ 7) × All (λ path. Member path paths) out.1.fetched
      → IsBounded (chat_response rt fetch allowance out)
  chat_response-IsBounded allowance (ok answer, s) h = h
  chat_response-IsBounded allowance (threw e, s) h = h

  provided-IsBounded :
      (question : String) (allowance : Allowance) (provider : Result LlmProvider)
      → IsBounded (provided rt fetch question allowance provider)
  provided-IsBounded question allowance (threw e) = (omega arith, tt)
  provided-IsBounded question allowance (ok provider) =
      chat_response-IsBounded allowance (chat fetch provider question)
        (chat-Within fetch provider question)

  allowed-IsBounded :
      (question : String) (provider : Result LlmProvider) (counted : Allowance × Limits)
      → IsBounded (allowed rt fetch question provider counted).0
  allowed-IsBounded question provider (allowance, left) = elim (Bool-cases allowance.allowed) [
    | inl free ↦ rw free (provided-IsBounded question allowance provider)
    | inr full ↦ rw full (omega arith, tt)
  ]

  -- Whatever is sent to the route, and whatever the provider and the API answer, it asks the
  -- provider seven times at most and fetches no path but those of the six tools and the texts of
  -- the members that every JavaScript object inherits.
  pub post_chat-IsBounded :
      (env : Environment) (header : String → Option String) (now : ℕ)
      (provider : Result LlmProvider) (input : Result (Option String)) (limits : Limits)
      → IsBounded (post_chat rt fetch env header now provider input limits).0
  unfolding post_chat
  post_chat-IsBounded env header now provider (threw e) limits = (omega arith, tt)
  post_chat-IsBounded env header now provider (ok none) limits = (omega arith, tt)
  post_chat-IsBounded env header now provider (ok (some question)) limits =
      allowed-IsBounded question provider (consume_daily_allowance rt env ask header now limits)

  -- A question that the limit of the day refuses asks and fetches nothing, and its status is 429.
  pub post_chat_refused :
      (env : Environment) (header : String → Option String) (now : ℕ)
      (provider : Result LlmProvider) (question : String) (limits : Limits)
      → (consume_daily_allowance rt env ask header now limits).0.allowed ≡ false
      → ((post_chat rt fetch env header now provider (ok (some question)) limits).0.asked ≡ 0)
        × ((post_chat rt fetch env header now provider (ok (some question)) limits).0.fetched ≡ [])
        × ((post_chat rt fetch env header now provider (ok (some question)) limits).0.status ≡ 429)
  unfolding post_chat limited_response
  post_chat_refused env header now provider question limits full = rw full (refl, refl, refl)
