-- ===== src/Worker/Postgres/Retention/Purge.antt =====
-- What a limited `delete` removes (the three queries of `cleanupRetention`).
use semantic_layer_explore.Prelude.{
  ℕ, zero, suc, ◌+◌, ◌≤◌, ◌≡◌, ◌∙◌, inl, inr, refl, Bool, true, false, ◌&&◌, not, Option, none,
  some, List, [], ◌∷◌, arith, any, filter, length, min, leb, Bool-cases, Option-cases,
}
use semantic_layer_explore.Worker.Postgres.Retention.{oldest, remove_at, remove_oldest, purge}

module _ {ℓ} {Row : Type ℓ} (at : Row → ℕ) (expired : Row → Bool) where
  -- With an expired row of that time or before, one row goes, and it is an expired one.
  abbrev has_by : ℕ → List Row → Bool
  has_by t rs = any (λ r. expired r && leb (at r) t) rs

  remove_at-length :
      (t : ℕ) (rs : List Row)
      → has_by t rs ≡ true
      → length rs ≡ suc (length (remove_at at expired t rs))
  unfolding remove_at any
  remove_at-length t [] h = ground arith
  remove_at-length t (r ∷ rs) h = ground (arith, remove_at-length t rs)

  count_expired : List Row → ℕ
  count_expired rs = length (filter expired rs)

  remove_at-count :
      (t : ℕ) (rs : List Row)
      → has_by t rs ≡ true
      → count_expired rs ≡ suc (count_expired (remove_at at expired t rs))
  unfolding remove_at any filter count_expired
  remove_at-count t [] h = ground arith
  remove_at-count t (r ∷ rs) h = ground (arith, remove_at-count t rs)

  -- Rows of a kind that no removed row has stay, in their order.
  remove_at-filter :
      (p : Row → Bool) (t : ℕ)
      → ((r : Row) → (expired r && leb (at r) t) ≡ true → p r ≡ false)
      → (rs : List Row) → filter p (remove_at at expired t rs) ≡ filter p rs
  unfolding remove_at filter
  remove_at-filter p t k [] = refl
  remove_at-filter p t k (r ∷ rs) = elim (Bool-cases (expired r && leb (at r) t)) [
    | inl gone ↦ rw (gone, k r gone) refl
    | inr stays ↦ rw stays (rw (remove_at-filter p t k rs) refl)
  ]

  remove_at-any :
      (p : Row → Bool) (t : ℕ) (rs : List Row)
      → any p (remove_at at expired t rs) ≡ true
      → any p rs ≡ true
  unfolding any remove_at
  remove_at-any p t [] h = h
  remove_at-any p t (r ∷ rs) h = ground (arith, remove_at-any p t rs)

  oldest-none : (rs : List Row) → oldest at expired rs ≡ none → any expired rs ≡ false
  unfolding oldest any
  oldest-none [] h = refl
  oldest-none (r ∷ rs) h = elim (Bool-cases (expired r)) [
    | inl old ↦ ground arith
    | inr young ↦ ground (arith, oldest-none rs)
  ]

  oldest-some : (rs : List Row) (t : ℕ) → oldest at expired rs ≡ some t → has_by t rs ≡ true
  unfolding oldest any
  oldest-some [] t h = ground arith
  oldest-some (r ∷ rs) t h = elim (Bool-cases (expired r)) [
    | inl old ↦ elim (Option-cases (oldest at expired rs)) [
      | inl e ↦ ground arith
      | inr (u, e) ↦ ground (arith, oldest-some rs u e)
    ]
    | inr young ↦ ground (arith, oldest-some rs t)
  ]

  none-has_by : (u : ℕ) (rs : List Row) → any expired rs ≡ false → has_by u rs ≡ false
  unfolding any
  none-has_by u [] h = refl
  none-has_by u (r ∷ rs) h = ground (arith, none-has_by u rs)

  oldest-least :
      (rs : List Row) (t u : ℕ) → oldest at expired rs ≡ some t → has_by u rs ≡ true → t ≤ u
  unfolding oldest any
  oldest-least [] t u h k = ground arith
  oldest-least (r ∷ rs) t u h k = elim (Bool-cases (expired r)) [
    | inl old ↦ elim (Option-cases (oldest at expired rs)) [
      | inl e ↦ ground (arith, none-has_by u rs (oldest-none rs e))
      | inr (v, e) ↦ ground (arith, oldest-least rs v u e)
    ]
    | inr young ↦ ground (arith, oldest-least rs t u)
  ]

  none-count : (rs : List Row) → any expired rs ≡ false → count_expired rs ≡ 0
  unfolding any filter count_expired
  none-count [] h = refl
  none-count (r ∷ rs) h = ground (arith, none-count rs)

  -- The rows that are left, one removal after the other.
  purge-filter :
      (p : Row → Bool)
      → ((r : Row) → expired r ≡ true → p r ≡ false)
      → (limit : ℕ) (rs : List Row) → filter p (purge at expired limit rs) ≡ filter p rs
  unfolding purge
  purge-filter p k zero rs = refl
  purge-filter p k (suc limit) rs = elim (Option-cases (oldest at expired rs)) [
    | inl e ↦ rw e (purge-filter p k limit rs)
    | inr (t, e) ↦ rw e (
        purge-filter p k limit (remove_at at expired t rs)
        ∙ remove_at-filter p t (λ r h. k r (ground arith)) rs)
  ]

  purge-length :
      (limit : ℕ) (rs : List Row)
      → length (purge at expired limit rs) + min limit (count_expired rs) ≡ length rs
  unfolding purge
  purge-length zero rs = omega arith
  purge-length (suc limit) rs = elim (Option-cases (oldest at expired rs)) [
    | inl e ↦ rw e (omega (arith, purge-length limit rs, none-count rs (oldest-none rs e)))
    | inr (t, e) ↦ rw e (
        omega (
          arith,
          purge-length limit (remove_at at expired t rs),
          remove_at-length t rs (oldest-some rs t e),
          remove_at-count t rs (oldest-some rs t e),
        ))
  ]

  -- The rows later than a time.
  abbrev after : ℕ → Row → Bool
  after t r = expired r && not (leb (at r) t)

  remove_oldest-any :
      (p : Row → Bool) (o : Option ℕ) (rs : List Row)
      → any p (remove_oldest at expired o rs) ≡ true
      → any p rs ≡ true
  remove_oldest-any p none rs h = h
  remove_oldest-any p (some t) rs h = remove_at-any p t rs h

  purge-any :
      (p : Row → Bool) (limit : ℕ) (rs : List Row)
      → any p (purge at expired limit rs) ≡ true
      → any p rs ≡ true
  unfolding purge
  purge-any p zero rs h = h
  purge-any p (suc limit) rs h =
      remove_oldest-any p (oldest at expired rs) rs (purge-any p limit _ h)

  remove_oldest-after :
      (t : ℕ) (o : Option ℕ) (rs : List Row)
      → oldest at expired rs ≡ o
      → has_by t rs ≡ true
      → filter (after t) (remove_oldest at expired o rs) ≡ filter (after t) rs
  remove_oldest-after t none rs e h = refl
  remove_oldest-after t (some u) rs e h =
      let soonest = oldest-least rs u t e h in
      remove_at-filter (after t) u (λ r gone. ground (arith, soonest)) rs

  purge-oldest :
      (t limit : ℕ) (rs : List Row)
      → has_by t (purge at expired limit rs) ≡ true
      → filter (after t) (purge at expired limit rs) ≡ filter (after t) rs
  unfolding purge
  purge-oldest t zero rs h = refl
  purge-oldest t (suc limit) rs h =
      let rest = remove_oldest at expired (oldest at expired rs) rs in
      purge-oldest t limit rest h
      ∙ remove_oldest-after t (oldest at expired rs) rs refl (
          remove_oldest-any (λ r. expired r && leb (at r) t) (oldest at expired rs) rs
            (purge-any (λ r. expired r && leb (at r) t) limit rest h))

  -- A limited delete takes as many rows as there are expired ones, up to the limit, and it leaves
  -- every other row as it is, in its order.
  pub purge-exact :
      (limit : ℕ) (rs : List Row)
      → (length (purge at expired limit rs) + min limit (length (filter expired rs)) ≡ length rs)
        × (filter (λ r. not (expired r)) (purge at expired limit rs)
            ≡ filter (λ r. not (expired r)) rs)
  unfolding count_expired
  purge-exact limit rs =
      (purge-length limit rs, purge-filter (λ r. not (expired r)) (λ r e. rw e refl) limit rs)

  -- It takes the oldest rows first: while an expired row of a time or before it is left, every
  -- expired row after that time is left too.
  pub purge-oldest_first :
      (t limit : ℕ) (rs : List Row)
      → any (λ r. expired r && leb (at r) t) (purge at expired limit rs) ≡ true
      → filter (λ r. expired r && not (leb (at r) t)) (purge at expired limit rs)
        ≡ filter (λ r. expired r && not (leb (at r) t)) rs
  purge-oldest_first t limit rs h = purge-oldest t limit rs h
