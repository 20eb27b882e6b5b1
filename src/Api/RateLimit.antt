-- ===== src/Api/RateLimit.antt =====
-- lib/server/rate-limit.ts. Times are milliseconds since 1970; the process has the counts of
-- `localCounts`, and the edge cache, where there is one, holds the counts that were put there.
pub mod Laws
use Prim.Native.Char.{code}
use Prim.Native.String
use semantic_layer_explore.Prelude.{
  ℕ, zero, suc, ◌+◌, ◌-◌, ◌*◌, ◌/◌, String, Bool, true, false, ◌&&◌, Option, none, some, List, [],
  ◌∷◌, ◌==◌, ltb, leb, eqb, max, or_else, if◌then◌else◌,
}
use semantic_layer_explore.Js.Number
use semantic_layer_explore.Js.Number.{Number, is_integer, less, of_nat, to_nat}
use semantic_layer_explore.Js.Text.{◌<>◌}
use semantic_layer_explore.Js.Runtime.{Runtime, Environment}

pub data RateLimitBucket : Type 0 where
  ask : RateLimitBucket
  explain : RateLimitBucket

abbrev limit_variable : RateLimitBucket → String
limit_variable ask = "ASK_AI_DAILY_LIMIT"
limit_variable explain = "EXPLAIN_AI_DAILY_LIMIT"

abbrev default_limit : RateLimitBucket → ℕ
default_limit ask = 10
default_limit explain = 5

abbrev number_from : Runtime → Option String → Number
number_from rt none = Number.nan
number_from rt (some s) = rt.to_number s

unfoldable pub get_daily_limit : Runtime → Environment → RateLimitBucket → ℕ
unfolding is_integer less of_nat to_nat
get_daily_limit rt env bucket =
    let parsed = number_from rt (env (limit_variable bucket)) in
    if is_integer parsed && less (of_nat 0) parsed then to_nat parsed else default_limit bucket

abbrev pub day : ℕ
day = 86_400_000

-- The next midnight, and `Math.max(60, Math.ceil((midnight - now) / 1000))`
abbrev pub midnight : ℕ → ℕ
midnight now = (now / day + 1) * day

unfoldable pub seconds_until_utc_midnight : ℕ → ℕ
seconds_until_utc_midnight now = max 60 ((midnight now - now + 999) / 1000)

-- `text.slice(0, n)`
abbrev pub slice : ℕ → String → String
slice zero s = ""
slice (suc n) String.[] = ""
slice (suc n) (String.◌∷◌ c s) = String.◌∷◌ c (slice n s)

-- `text.split(",")[0]`
abbrev first_item : String → String
first_item String.[] = ""
first_item (String.◌∷◌ c s) =
    let rest = first_item s in if eqb (code c) 44 then "" else String.◌∷◌ c rest

abbrev or_text : Option String → String → String
or_text none other = other
or_text (some s) other = if s == "" then other else s

abbrev mapped : (String → String) → Option String → Option String
mapped f none = none
mapped f (some s) = some (f s)

-- The client that a request is counted for, from its headers.
unfoldable pub client_of : Runtime → (String → Option String) → String
client_of rt header =
    or_text (header "cf-connecting-ip")
      (or_text (mapped (λ s. rt.trim (first_item s)) (header "x-forwarded-for")) "local")

abbrev bucket_name : RateLimitBucket → String
bucket_name ask = "ask"
bucket_name explain = "explain"

unfoldable pub key_of : RateLimitBucket → String → String → String
key_of bucket date client = bucket_name bucket <> (":" <> (date <> (":" <> client)))

-- A map from keys to counts, newest entry first.
abbrev pub Counts : Type 0
Counts = List (String × ℕ)

unfoldable pub get_count : String → Counts → ℕ
get_count k [] = 0
get_count k ((key, n) ∷ rest) = if key == k then n else get_count k rest

abbrev pub set_count : String → ℕ → Counts → Counts
set_count k n counts = (k, n) ∷ counts

abbrev find_count : String → Counts → Option ℕ
find_count k [] = none
find_count k ((key, n) ∷ rest) = if key == k then some n else find_count k rest

-- `localCounts` and the edge cache, whose keys stand for the requests of the same three parts.
pub record Limits : Type 0 where
  pub local_counts : Counts
  pub edge : Option Counts

pub record Allowance : Type 0 where
  pub allowed : Bool
  pub remaining : ℕ
  pub reset_seconds : ℕ
  pub limit : ℕ

-- `if (edgeCache) { … if (stored) count = …; }`
abbrev pub counted : String → Counts → Option Counts → ℕ
counted key local_counts none = get_count key local_counts
counted key local_counts (some edge) = or_else (find_count key edge) (get_count key local_counts)

abbrev pub put_edge : String → ℕ → Option Counts → Option Counts
put_edge key n none = none
put_edge key n (some edge) = some (set_count key n edge)

unfoldable pub consume_daily_allowance :
    Runtime
    → Environment
    → RateLimitBucket
    → (String → Option String)
    → ℕ
    → Limits
    → Allowance × Limits
consume_daily_allowance rt env bucket header now limits =
    let date = slice 10 (rt.iso now) in
    let limit = get_daily_limit rt env bucket in
    let key = key_of bucket date (client_of rt header) in
    let count = counted key limits.local_counts limits.edge in
    let reset = seconds_until_utc_midnight now in
    if leb limit count
    then (record { allowed = false; remaining = 0; reset_seconds = reset; limit = limit }, limits)
    else (
      record {
        allowed = true;
        remaining = limit - (count + 1);
        reset_seconds = reset;
        limit = limit;
      },
      record {
        local_counts = set_count key (count + 1) limits.local_counts;
        edge = put_edge key (count + 1) limits.edge;
      },
    )
