-- ===== src/Api/Chat/Laws.antt =====
-- What the conversation may do, whatever the provider answers.
use semantic_layer_explore.Prelude.{
  ℕ, zero, suc, ◌+◌, ◌≤◌, ◌≡◌, refl, String, Bool, true, false, Option, none, some, List, [], ◌∷◌,
  ◌++◌, ◌==◌, arith, map, All, All-append, Member, first, later, Bool-cases, inl, inr,
}
use semantic_layer_explore.Js.Json.{Json}
use semantic_layer_explore.Js.Result.{Result, ok, threw}
use semantic_layer_explore.Api.Chat.{
  LlmToolCall, ToolResponse, LlmProvider, GenerateWithToolsResult, Fetched, Session, Answer, Out,
  inherited_members, tool_members, find_path, call_path, call_application_tool, add_response,
  after_call, call_tools, push_assistant, request_for, after_tools, after_calls, after_generate,
  run_turns, started, chat,
}

-- The paths of the six tools, and the texts of the members that every JavaScript object inherits.
abbrev pub paths : List String
paths =
    "/api/ontology"
    ∷ "/api/state"
    ∷ "/api/sensors"
    ∷ "/api/devices"
    ∷ "/api/events?limit=50"
    ∷ "/api/rules"
    ∷ map (λ (row : String × String). row.1) inherited_members

abbrev Allowed : List String → Type 0
Allowed fetched = All (λ path. Member path paths) fetched

find_path-Member :
    (name : String) (rows : List (String × String)) {path : String}
    → find_path name rows ≡ some path
    → Member path (map (λ (row : String × String). row.1) rows)
unfolding find_path
find_path-Member name [] h = cc h
find_path-Member name ((key, p) ∷ rows) {path} h = elim (Bool-cases (key == name)) [
  | inl same ↦ first (ground arith)
  | inr other ↦ later (find_path-Member name rows {path = path} (ground arith))
]

module _ (fetch : String → Fetched) where
  -- A session that has asked no more than so often.
  abbrev Within : ℕ → Session → Type 0
  Within n s = (s.asked ≤ n) × Allowed s.fetched

  abbrev WithinOut : {A : Type 0} → ℕ → Out A → Type 0
  WithinOut n (r, s) = Within n s

  path-Within :
      (n : ℕ) (name : String) (o : Option String) (s : Session)
      → find_path name tool_members ≡ o
      → Within n s
      → WithinOut n (call_path fetch name o s)
  path-Within n name none s e h = h
  path-Within n name (some path) s e (few, h) = (
    few,
    All-append (λ p. Member p paths) s.fetched (path ∷ []) h
        (find_path-Member name tool_members e, tt),
  )

  after_call-Within :
      (n : ℕ) (name : String) (q : Out Json) (next : Session → Out (List ToolResponse))
      → WithinOut n q
      → ((s : Session) → Within n s → WithinOut n (next s))
      → WithinOut n (after_call fetch name q next)
  after_call-Within n name (threw e, s) next h k = h
  after_call-Within n name (ok json, s) next h k = go (next s) (k s h)
    where
      go :
          (q : Out (List ToolResponse))
          → WithinOut n q
          → WithinOut n (add_response fetch name json q)
      go (ok rest, t) w = w
      go (threw e, t) w = w

  call_tools-Within :
      (n : ℕ) (calls : List LlmToolCall) (s : Session)
      → Within n s
      → WithinOut n (call_tools fetch calls s)
  unfolding call_tools call_application_tool
  call_tools-Within n [] s h = h
  call_tools-Within n (call ∷ calls) s h =
      let t = record s { trace = s.trace ++ call.name ∷ [] } in
      after_call-Within n call.name (call_application_tool fetch call.name t)
        (λ u. call_tools fetch calls u)
        (path-Within n call.name (find_path call.name tool_members) t refl h)
        (λ u k. call_tools-Within n calls u k)

  module _ (provider : LlmProvider) where
    after_tools-Within :
        (m n : ℕ) (next : Session → Out Answer) (q : Out (List ToolResponse))
        → m ≤ n
        → WithinOut m q
        → ((s : Session) → Within m s → WithinOut n (next s))
        → WithinOut n (after_tools fetch provider next q)
    after_tools-Within m n next (ok rs, s) le h k = k _ h
    after_tools-Within m n next (threw e, s) le (few, h) k = (omega arith, h)

    pushed-Within :
        (n : ℕ) (m : Option Json) (s : Session) → Within n s → Within n (push_assistant m s)
    pushed-Within n none s h = h
    pushed-Within n (some m) s h = h

    after_generate-Within :
        (m n : ℕ) (next : Session → Out Answer) (r : Result GenerateWithToolsResult) (s : Session)
        → m ≤ n
        → Within m s
        → ((t : Session) → Within m t → WithinOut n (next t))
        → WithinOut n (after_generate fetch provider next r s)
    after_generate-Within m n next (threw e) s le h k = (omega (arith, h.0), h.1)
    after_generate-Within m n next (ok result) s le h k = go result.tool_calls
      where
        go :
            (calls : List LlmToolCall)
            → WithinOut n (after_calls fetch provider next result calls s)
        go [] = (omega (arith, h.0), h.1)
        go (call ∷ calls) =
            after_tools-Within m n next
              (call_tools fetch (call ∷ calls) (push_assistant result.assistant_message s)) le
              (call_tools-Within m (call ∷ calls) (push_assistant result.assistant_message s)
                (pushed-Within m result.assistant_message s h))
              k

    -- With so many turns left, and so many questions in all.
    run_turns-Within :
        (n turns : ℕ) (first_turn : Bool) (s : Session)
        → s.asked + turns ≤ n
        → Allowed s.fetched
        → WithinOut n (run_turns fetch provider turns first_turn s)
    unfolding run_turns
    run_turns-Within n zero first_turn s few h = (omega arith, h)
    run_turns-Within n (suc turns) first_turn s few h =
        after_generate-Within (s.asked + 1) n (λ t. run_turns fetch provider turns false t)
          (provider.generate_with_tools (request_for fetch provider first_turn s))
          (record s { asked = s.asked + 1 }) (omega arith) (omega arith, h)
          (λ t k. run_turns-Within n turns false t (omega (arith, k.0)) k.1)

    -- Whatever the provider and the API answer, a conversation asks the provider seven times at
    -- most, and fetches no path but those of the six tools and the texts of the members that every
    -- JavaScript object inherits.
    pub chat-Within :
        (text : String)
        → ((chat fetch provider text).1.asked ≤ 7)
          × All (λ path. Member path paths) (chat fetch provider text).1.fetched
    unfolding chat
    chat-Within text = run_turns-Within 7 7 true (started text) (omega arith) tt
