-- ===== src/Api/RateLimit/Laws.antt =====
-- What the daily limit allows.
use semantic_layer_explore.Prelude.{
  ◌%◌, ◌/◌, ◌<◌, ◌⊎◌, ℕ, suc, ◌+◌, ◌-◌, ◌*◌, ◌≤◌, ◌<◌, ◌≡◌, ◌≢◌, refl, ap, sym, String, Bool, true,
  false, Option, none, List, [], ◌∷◌, ◌==◌, eq_iff, arith, min, leb, leb→le, if◌then◌else◌,
  Bool-cases, inl, inr,
}
use semantic_layer_explore.Js.Text.{◌<>◌, is_prefix, is_prefix-append, is_prefix-other}
use semantic_layer_explore.Js.Runtime.{Runtime, Environment}
use semantic_layer_explore.Api.RateLimit.{
  slice, client_of, get_daily_limit, RateLimitBucket, ask, explain, key_of,
  seconds_until_utc_midnight, Counts, get_count, set_count, Limits, Allowance,
  consume_daily_allowance,
}

-- Let the next midnight be the first multiple of a day behind the time of a request. A client that
-- is refused is told to wait at least a minute and at most a day, and to the next midnight at least;
-- and unless it is told the minute, less than a second longer.
pub seconds_until_utc_midnight-bounds :
    (now next : ℕ)
    → next % 86_400_000 ≡ 0
    → now < next
    → next ≤ now + 86_400_000
    → (60 ≤ seconds_until_utc_midnight now)
      × (seconds_until_utc_midnight now ≤ 86_400)
      × (next ≤ now + seconds_until_utc_midnight now * 1_000)
      × ((seconds_until_utc_midnight now ≡ 60)
          ⊎ (now + seconds_until_utc_midnight now * 1_000 < next + 1_000))
unfolding seconds_until_utc_midnight
seconds_until_utc_midnight-bounds now next whole after within =
    let same : next ≡ (now / 86_400_000 + 1) * 86_400_000 = omega (arith, whole, after, within) in
    (omega arith, omega arith, omega (arith, same), omega (arith, same, after))

-- The keys of the two buckets begin with different letters.
ask_a : is_prefix "a" "ask" ≡ true
unfolding is_prefix
ask_a = refl

bucket_of_key :
    (date client date' client' : String) → key_of ask date client ≢ key_of explain date' client'
unfolding key_of is_prefix
bucket_of_key date client date' client' h =
    let yes_a : is_prefix "a" (key_of ask date client) ≡ true =
      is_prefix-append "a" "ask" (":" <> (date <> (":" <> client))) ask_a in
    let no_a : is_prefix "a" (key_of explain date' client') ≡ false =
      is_prefix-other "a" "e" "" "xplain" (":" <> (date' <> (":" <> client'))) refl in
    cc (h, yes_a, no_a)

bucket_of :
    (a b : RateLimitBucket) (date client date' client' : String)
    → key_of a date client ≡ key_of b date' client'
    → a ≡ b
bucket_of ask ask date client date' client' e = refl
bucket_of explain explain date client date' client' e = refl
bucket_of ask explain date client date' client' e =
    absurd (bucket_of_key date client date' client' e)
bucket_of explain ask date client date' client' e =
    absurd (bucket_of_key date' client' date client (sym e))

not_leb : (a b : ℕ) → leb a b ≡ false → b < a
not_leb a b h = ground arith

if-true : {A : Type 0} {b : Bool} {x : A} (y : A) → b ≡ true → (if b then x else y) ≡ x
if-true y e = rw e refl

if-false : {A : Type 0} {b : Bool} (x : A) {y : A} → b ≡ false → (if b then x else y) ≡ y
if-false x e = rw e refl

pub record Call : Type 0 where
  pub bucket : RateLimitBucket
  pub header : String → Option String
  pub now : ℕ

module _ (rt : Runtime) (env : Environment) where
  abbrev key_at : Call → String
  key_at c = key_of c.bucket (slice 10 (rt.iso c.now)) (client_of rt c.header)

  abbrev consume : Call → Limits → Allowance × Limits
  consume c limits = consume_daily_allowance rt env c.bucket c.header c.now limits

  -- How many calls are for the key, and how many of those are allowed.
  abbrev pub requested : String → List Call → ℕ
  requested k [] = 0
  requested k (c ∷ cs) = let rest = requested k cs in if key_at c == k then suc rest else rest

  abbrev pub granted : String → List Call → Limits → ℕ
  granted k [] limits = 0
  granted k (c ∷ cs) limits =
      let (allowance, after) = consume c limits in
      let rest = granted k cs after in
      if key_at c == k then (if allowance.allowed then suc rest else rest) else rest

  -- The state of a process without an edge cache.
  abbrev pub in_process : Counts → Limits
  in_process counts = record { local_counts = counts; edge = none }

  module _ (c : Call) (counts : Counts) where
    abbrev is_full : Bool
    is_full = leb (get_daily_limit rt env c.bucket) (get_count (key_at c) counts)

    abbrev answer : Bool → ℕ → Allowance
    answer allowed remaining = record {
      allowed = allowed;
      remaining = remaining;
      reset_seconds = seconds_until_utc_midnight c.now;
      limit = get_daily_limit rt env c.bucket;
    }

    consume-full :
        is_full ≡ true → consume c (in_process counts) ≡ (answer false 0, in_process counts)
    unfolding consume_daily_allowance
    consume-full full = if-true _ full

    consume-free :
        is_full ≡ false
        → consume c (in_process counts) ≡ (
          answer true (get_daily_limit rt env c.bucket - (get_count (key_at c) counts + 1)),
          in_process (set_count (key_at c) (get_count (key_at c) counts + 1) counts),
        )
    unfolding consume_daily_allowance
    consume-free free = if-false _ free

  module _ (bucket : RateLimitBucket) (date client : String) where
    abbrev key : String
    key = key_of bucket date client

    abbrev left : Counts → ℕ
    left counts = get_daily_limit rt env bucket - get_count key counts

    same_limit :
        (c : Call)
        → key_at c ≡ key
        → get_daily_limit rt env c.bucket ≡ get_daily_limit rt env bucket
    same_limit c e =
        ap (get_daily_limit rt env) (
          bucket_of c.bucket bucket (slice 10 (rt.iso c.now)) (client_of rt c.header) date client e)

    left-full :
        (c : Call) (counts : Counts) → key_at c ≡ key → is_full c counts ≡ true → left counts ≡ 0
    left-full c counts e full =
        let below = leb→le (get_daily_limit rt env c.bucket) (get_count (key_at c) counts) full in
        let limits = same_limit c e in let counted = ap (λ k. get_count k counts) e in omega arith

    left-free :
        (c : Call) (counts : Counts)
        → key_at c ≡ key
        → is_full c counts ≡ false
        → left counts ≡ suc (left (set_count (key_at c) (get_count (key_at c) counts + 1) counts))
    unfolding get_count
    left-free c counts e free =
        let above = not_leb (get_daily_limit rt env c.bucket) (get_count (key_at c) counts) free in
        let limits = same_limit c e in
        let counted = ap (λ k. get_count k counts) e in
        let same = (eq_iff (key_at c) key).1 e in rw same (omega arith)

    left-other :
        (c : Call) (n : ℕ) (counts : Counts)
        → (key_at c == key) ≡ false
        → left (set_count (key_at c) n counts) ≡ left counts
    unfolding get_count
    left-other c n counts other = rw other refl

    granted-min :
        (calls : List Call) (counts : Counts)
        → granted key calls (in_process counts) ≡ min (requested key calls) (left counts)
    granted-min [] counts = omega arith
    granted-min (c ∷ calls) counts = elim (Bool-cases (is_full c counts)) [
      | inl full ↦
          rw (consume-full c counts full, granted-min calls counts)
            (elim (Bool-cases (key_at c == key)) [
              | inl same ↦
                  let empty = left-full c counts ((eq_iff _ _).0 same) full in rw same (omega arith)
              | inr other ↦ rw other refl
            ])
      | inr free ↦
          rw (consume-free c counts free, granted-min calls _)
            (elim (Bool-cases (key_at c == key)) [
              | inl same ↦
                  let some_left = left-free c counts ((eq_iff _ _).0 same) free in
                  rw same (omega arith)
              | inr other ↦
                  let same_left = left-other c (get_count (key_at c) counts + 1) counts other in
                  rw other (omega arith)
            ])
    ]

    -- In a process without an edge cache that begins with no counts, whatever other calls come
    -- between, as many of the calls of a client on a day are allowed as it makes, up to the limit
    -- of the bucket, and no more.
    pub granted-limit :
        (calls : List Call)
        → granted key calls (in_process [])
          ≡ min (requested key calls) (get_daily_limit rt env bucket)
    unfolding get_count
    granted-limit calls = omega (arith, granted-min calls [])
