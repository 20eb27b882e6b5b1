-- ===== src/Client/Dashboard/Refresh.antt =====
-- `refresh` of components/dashboard/workspace-dashboard.tsx: the state, the events and the rules are
-- replaced together or not at all.
use semantic_layer_explore.Prelude.{
  Bool, true, false, some, List, [], ◌∷◌, ◌++◌, ◌≡◌, ◌⊎◌, inl, inr, refl, arith,
}
use semantic_layer_explore.Js.Json.{Json}
use semantic_layer_explore.Js.Result.{Result, ok, threw}
use semantic_layer_explore.Client.Timeline.{WorkspaceEvent}
use semantic_layer_explore.Client.Action.{
  Request, Reply, ◌>>=◌, modify, or_handle, rejected, response,
}
use semantic_layer_explore.Client.Dashboard.{
  Dashboard, get, issue, load_all, refresh, show_operations, refresh_agent_results,
}
use semantic_layer_explore.Client.Dashboard.Laws.{background-SamePrimary}

pub record SameData (d t : Dashboard) : Type 0 where
  pub state : t.state ≡ d.state
  pub events : t.events ≡ d.events
  pub rules : t.rules ≡ d.rules

module _ (fetch : Request → Reply) (read_events : Json → List WorkspaceEvent) where
  abbrev state_reply : Reply
  state_reply = fetch (get "/api/state")

  abbrev events_reply : Reply
  events_reply = fetch (get "/api/events?limit=40")

  abbrev rules_reply : Reply
  rules_reply = fetch (get "/api/rules")

  -- The three calls have answered with these values, and the dashboard shows them.
  pub record IsLoaded (t : Dashboard) : Type 0 where
    pub state : Json
    pub events : Json
    pub rules : Json
    pub state_answered : state_reply ≡ response true (ok state)
    pub events_answered : events_reply ≡ response true (ok events)
    pub rules_answered : rules_reply ≡ response true (ok rules)
    pub state_shown : t.state ≡ some state
    pub events_shown : t.events ≡ read_events events
    pub rules_shown : t.rules ≡ rules

  -- The part of `refresh` behind the new state.
  abbrev rest : Bool × Result Json → Dashboard → Dashboard
  rest reply d =
      or_handle (λ e t. record t { error = e })
        ((show_operations reply >>= λ x. modify (refresh_agent_results fetch)) d)

  rest-SameData : (reply : Bool × Result Json) (d : Dashboard) → SameData d (rest reply d)
  unfolding show_operations ◌>>=◌
  rest-SameData (false, json) d =
      let kept = (background-SamePrimary fetch d).0 in
      record { state = kept.state; events = kept.events; rules = kept.rules }
  rest-SameData (true, ok body) d =
      let kept = (background-SamePrimary fetch (record d { operations = some body })).0 in
      record { state = kept.state; events = kept.events; rules = kept.rules }
  rest-SameData (true, threw e) d = ground arith

  abbrev Ends : Dashboard → Dashboard → Type 0
  Ends d t = SameData d t ⊎ IsLoaded t

  refresh-Ends :
      (r1 r2 r3 r4 : Reply) (d : Dashboard)
      → state_reply ≡ r1
      → events_reply ≡ r2
      → rules_reply ≡ r3
      → fetch (get "/api/operations/summary") ≡ r4
      → Ends d (refresh fetch read_events d)
  unfolding refresh load_all ◌>>=◌ issue
  refresh-Ends (rejected e) r2 r3 r4 d h1 h2 h3 h4 = inl (ground (arith, h1))
  refresh-Ends (response b j) (rejected e) r3 r4 d h1 h2 h3 h4 = inl (ground (arith, h1, h2))
  refresh-Ends (response b j) (response c k) (rejected e) r4 d h1 h2 h3 h4 =
      inl (ground (arith, h1, h2, h3))
  refresh-Ends (response b j) (response c k) (response f l) (rejected e) d h1 h2 h3 h4 =
      inl (ground (arith, h1, h2, h3, h4))
  refresh-Ends (response false j) (response c k) (response f l) (response g m) d h1 h2 h3 h4 =
      inl (ground (arith, h1, h2, h3, h4))
  refresh-Ends (response true j) (response false k) (response f l) (response g m) d h1 h2 h3 h4 =
      inl (ground (arith, h1, h2, h3, h4))
  refresh-Ends (response true j) (response true k) (response false l) (response g m) d h1 h2 h3 h4 =
      inl (ground (arith, h1, h2, h3, h4))
  refresh-Ends (response true (threw e)) (response true k) (response true l) (response g m) d h1 h2
        h3 h4 =
      inl (ground (arith, h1, h2, h3, h4))
  refresh-Ends (response true (ok j)) (response true (threw e)) (response true l) (response g m) d
        h1 h2 h3 h4 =
      inl (ground (arith, h1, h2, h3, h4))
  refresh-Ends (response true (ok j)) (response true (ok k)) (response true (threw e))
        (response g m) d h1 h2 h3 h4 =
      inl (ground (arith, h1, h2, h3, h4))
  refresh-Ends (response true (ok j)) (response true (ok k)) (response true (ok l)) (response g m) d
        h1 h2 h3 h4 =
      let kept =
        rest-SameData (g, m)
          (record d {
            state = some j;
            events = read_events k;
            rules = l;
            error = "";
            sent =
                d.sent
                ++ get "/api/state" ∷ []
                ++ get "/api/events?limit=40" ∷ []
                ++ get "/api/rules" ∷ []
                ++ get "/api/operations/summary" ∷ [];
          }) in
      rw (h1, h2, h3, h4)
        (inr (record {
          state = j;
          events = k;
          rules = l;
          state_answered = h1;
          events_answered = h2;
          rules_answered = h3;
          state_shown = kept.state;
          events_shown = kept.events;
          rules_shown = kept.rules;
        }))

  -- After a refresh, either the state, the events and the rules are all as before, or the calls for
  -- all three have answered and all three are replaced by what they answered, also where the
  -- operations or the agents' results cannot be read.
  pub refresh_all_or_nothing :
      (d : Dashboard)
      → SameData d (refresh fetch read_events d) ⊎ IsLoaded (refresh fetch read_events d)
  refresh_all_or_nothing d =
      refresh-Ends state_reply events_reply rules_reply (fetch (get "/api/operations/summary")) d
        refl refl refl refl
