-- ===== src/Js/Text.antt =====
-- `text.includes(part)`, by comparison at each position, and joining with a separator.
use Prim.Native.Char.{Char, code}
use Prim.Native.String
use text.Mathlib.TextLemmas.{nil-append, cons-append}
use semantic_layer_explore.Prelude.{
  String, Bool, true, false, ◌&&◌, ◌||◌, ◌≡◌, refl, arith, List, [], ◌∷◌, eqb,
}

-- Concatenation, which template literals and `+` do.
infixr 66 ◌<>◌
abbrev pub ◌<>◌ : String → String → String
a <> b = String.◌++◌ a b

unfoldable pub is_prefix : String → String → Bool
is_prefix String.[] s = true
is_prefix (String.◌∷◌ c p) String.[] = false
is_prefix (String.◌∷◌ c p) (String.◌∷◌ d s) = eqb (code c) (code d) && is_prefix p s

unfoldable pub includes : String → String → Bool
unfolding is_prefix
includes String.[] part = is_prefix part String.[]
includes (String.◌∷◌ c s) part = is_prefix part (String.◌∷◌ c s) || includes s part

-- `parts.join(separator)`
unfoldable pub join : String → List String → String
join sep [] = ""
join sep (p ∷ []) = p
join sep (p ∷ q ∷ rest) = p <> (sep <> join sep (q ∷ rest))

pub is_prefix-append : (p s t : String) → is_prefix p s ≡ true → is_prefix p (s <> t) ≡ true
unfolding is_prefix
is_prefix-append String.[] s t h = refl
is_prefix-append (String.◌∷◌ c p) String.[] t h = ground arith
is_prefix-append (String.◌∷◌ c p) (String.◌∷◌ d s) t h =
    rw cons-append (ground (arith, is_prefix-append p s t))

includes-nil : (s : String) → includes s "" ≡ true
unfolding includes
includes-nil String.[] = refl
includes-nil (String.◌∷◌ c s) = refl

-- What a text includes, it still includes with something behind it.
pub includes-append : (s t part : String) → includes s part ≡ true → includes (s <> t) part ≡ true
unfolding includes
includes-append String.[] t String.[] h = rw nil-append (includes-nil t)
includes-append String.[] t (String.◌∷◌ c p) h = ground arith
includes-append (String.◌∷◌ c s) t part h = rw cons-append (
    let first = rw cons-append at (is_prefix-append part (String.◌∷◌ c s) t) in
    ground (arith, first, includes-append s t part))

-- A text that starts with another letter has no prefix that starts with this one.
pub is_prefix-other :
    (c d : Char) (p s t : String)
    → eqb (code c) (code d) ≡ false
    → is_prefix (String.◌∷◌ c p) (String.◌∷◌ d s <> t) ≡ false
unfolding is_prefix
is_prefix-other c d p s t h = rw (cons-append, h) refl
