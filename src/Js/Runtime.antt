-- ===== src/Js/Runtime.antt =====
-- The runtime's own functions, which the program calls and does not define. No law is assumed of
-- any of them.
use semantic_layer_explore.Prelude.{ℕ, String, Option}
use semantic_layer_explore.Js.Number.{Number}
use semantic_layer_explore.Js.Json.{Json}

pub record Runtime : Type 0 where
  -- `JSON.parse`; `none` is a `SyntaxError`, whose message the second one gives
  pub json_parse : String → Option Json
  pub syntax_message : String → String
  -- `Date.parse`, in milliseconds from an instant before all dates; `none` is `NaN`
  pub date_parse : String → Option ℕ
  -- `toISOString`
  pub iso : ℕ → String
  -- `text.trim()`, `text.toLowerCase()`
  pub trim : String → String
  pub lower : String → String
  -- the text of a value that is no text, in a template literal or as a query's parameter
  pub render : Json → String
  -- `Number(text)`
  pub to_number : String → Number
  -- the decimal text of a natural number
  pub decimal : ℕ → String
  -- the n-th value of `randomUUID`
  pub uuid : ℕ → String
  -- PostgreSQL's reading of a text as `timestamptz`; `none` is an error of the query
  pub timestamptz : String → Option ℕ

-- `process.env`: the values that are set.
abbrev pub Environment : Type 0
Environment = String → Option String
