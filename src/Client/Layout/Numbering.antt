-- ===== src/Client/Layout/Numbering.antt =====
-- Elements that are counted by key: those of one key get rising numbers.
use semantic_layer_explore.Prelude.{
  ℕ, ◌<◌, ◌≡◌, ◌↔◌, refl, sym, ◌∙◌, Bool, true, List, [], ◌∷◌, All, arith, Bool-cases, inl, inr,
}
use mathlib.Core.Path.{subst}
use semantic_layer_explore.Client.Layout.{number, bump}

-- Any two elements, the earlier one first.
abbrev pub Pairwise : {B : Type 0} → (B → B → Type 0) → List B → Type 0
Pairwise P [] = Unit
Pairwise P (b ∷ bs) = All (P b) bs × Pairwise P bs

module _ {A B K : Type 0} (same : K → K → Bool) (same_iff : (j k : K) → (same j k ≡ true) ↔ (j ≡ k))
    (key : A → K) (put : A → ℕ → B) (Q : A → Type 0) (P : B → B → Type 0)
    (apart : (a b : A) (i j : ℕ)
      → Q a
      → Q b
      → (key a ≡ key b → i < j)
      → P (put a i) (put b j)) where
  bump-above :
      (a : K) (i : ℕ) (counts : K → ℕ) (b : K)
      → ((k : K) → a ≡ k → i < counts k)
      → (k : K) → a ≡ k
      → i < bump same key put b counts k
  bump-above a i counts b h k e = elim (Bool-cases (same b k)) [
    | inl s ↦ rw s (let below = h b (e ∙ sym ((same_iff b k).0 s)) in omega (arith, below))
    | inr s ↦ rw s (h k e)
  ]

  number-after :
      (a : A) (i : ℕ) (rest : List A) (counts : K → ℕ)
      → Q a
      → All Q rest
      → ((k : K) → key a ≡ k → i < counts k)
      → All (P (put a i)) (number same key put rest counts)
  unfolding number
  number-after a i [] counts q qs h = tt
  number-after a i (b ∷ rest) counts q qs h = (
    apart a b i (counts (key b)) q qs.0 (h (key b)),
    number-after a i rest (bump same key put (key b) counts) q qs.1
        (bump-above (key a) i counts (key b) h),
  )

  pub number-Pairwise :
      (xs : List A) (counts : K → ℕ) → All Q xs → Pairwise P (number same key put xs counts)
  unfolding number
  number-Pairwise [] counts q = tt
  number-Pairwise (a ∷ rest) counts q = (
    number-after a (counts (key a)) rest (bump same key put (key a) counts) q.0 q.1 (λ k e.
        rw (subst (λ j. same (key a) j ≡ true) e ((same_iff (key a) (key a)).1 refl))
          (omega arith)),
    number-Pairwise rest (bump same key put (key a) counts) q.1,
  )
