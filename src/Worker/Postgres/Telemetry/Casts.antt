-- ===== src/Worker/Postgres/Telemetry/Casts.antt =====
-- The casts of the parameters of a query.
use semantic_layer_explore.Prelude.{
  ℕ, String, ◌≡◌, Bool, true, Option, none, some, arith, ◌^◌, if◌then◌else◌, inl, inr, Bool-cases,
}
use semantic_layer_explore.Js.Number.{Number, less, of_nat}
use semantic_layer_explore.Js.Runtime.{Runtime}
use semantic_layer_explore.Js.Result.{ok, threw}
use semantic_layer_explore.Worker.Postgres.Telemetry.{cast_time, cast_bigint}

module _ (rt : Runtime) where
  pub cast_time-ok : (s : String) (at : ℕ) → cast_time rt s ≡ ok at → rt.timestamptz s ≡ some at
  unfolding cast_time
  cast_time-ok s at h = go (rt.timestamptz s) h
    where
      go :
          (o : Option ℕ)
          → (elim o [
            | none ↦ threw "invalid input syntax for type timestamp with time zone"
            | some t ↦ ok t
          ])
            ≡ ok at
          → o ≡ some at
      go none k = cc k
      go (some t) k = cc k

pub cast_bigint-ok :
    (n m : Number) → cast_bigint n ≡ ok m → (less n (of_nat (2 ^ 63)) ≡ true) × (m ≡ n)
unfolding cast_bigint
cast_bigint-ok n m h = go (less n (of_nat (2 ^ 63))) h
  where
    go :
        (b : Bool)
        → (if b then ok n else threw "out of range for type bigint") ≡ ok m
        → (b ≡ true) × (m ≡ n)
    go b k = elim (Bool-cases b) [ inl e ↦ ground arith | inr e ↦ ground arith ]
