-- ===== src/Js/Number.antt =====
-- JavaScript numbers. A finite double is a whole multiple of 2^-1074, so it is held as the integer
-- of those units, and comparisons are exact. The program only compares the numbers that it
-- receives and tests whether they are whole; it adds none of them.
use semantic_layer_explore.Prelude.{
  ℕ, suc, ◌+◌, ◌*◌, ◌^◌, ◌%◌, ◌-◌, Bool, true, false, ◌&&◌, ltb, leb, eqb, not,
}

pub data ℤ : Type 0 where
  pos : ℕ → ℤ
  negsuc : ℕ → ℤ

abbrev pub pos_part : ℤ → ℕ
pos_part (pos n) = n
pos_part (negsuc n) = 0

abbrev pub neg_part : ℤ → ℕ
neg_part (pos n) = 0
neg_part (negsuc n) = suc n

abbrev pub ltb_ℤ : ℤ → ℤ → Bool
ltb_ℤ a b = ltb (pos_part a + neg_part b) (pos_part b + neg_part a)

abbrev pub eqb_ℤ : ℤ → ℤ → Bool
eqb_ℤ a b = eqb (pos_part a + neg_part b) (pos_part b + neg_part a)

pub data Number : Type 0 where
  finite : ℤ → Number
  infinity neg_infinity nan : Number

-- The units in 1.
pub one : ℕ
one = 2 ^ 1074

-- A whole number.
unfoldable pub of_nat : ℕ → Number
unfolding one
of_nat n = finite (pos (n * one))

-- `a < b`
unfoldable pub less : Number → Number → Bool
less nan b = false
less a nan = false
less (finite a) (finite b) = ltb_ℤ a b
less (finite a) infinity = true
less neg_infinity (finite b) = true
less neg_infinity infinity = true
less _ _ = false

-- `a === b`
unfoldable pub same : Number → Number → Bool
same (finite a) (finite b) = eqb_ℤ a b
same infinity infinity = true
same neg_infinity neg_infinity = true
same _ _ = false

-- `a <= b`
unfoldable pub at_most : Number → Number → Bool
unfolding less
at_most nan b = false
at_most a nan = false
at_most a b = not (less b a)

-- `Number.isInteger`
unfoldable pub is_integer : Number → Bool
unfolding one
is_integer (finite a) = eqb ((pos_part a + neg_part a) % one) 0
is_integer _ = false

-- `Number.isSafeInteger`: a whole number of magnitude at most 2^53 - 1.
unfoldable pub is_safe_integer : Number → Bool
unfolding is_integer one
is_safe_integer (finite a) =
    is_integer (finite a) && leb (pos_part a + neg_part a) ((2 ^ 53 - 1) * one)
is_safe_integer _ = false

-- `x < 0`
unfoldable pub is_negative : Number → Bool
unfolding less
is_negative x = less x (finite (pos 0))

-- The whole number that a safe integer above 0 is, and 0 for the others.
unfoldable pub to_nat : Number → ℕ
unfolding one
to_nat (finite (pos n)) = Prim.Native.Nat.◌/◌ n one
to_nat _ = 0
