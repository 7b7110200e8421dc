-- ===== src/Base/Strings.antt =====
-- Order and joining of texts.
use Prim.Native.Nat.{ℕ, Ordering, compare as compare_ℕ}
use Prim.Native.Char.{Char, code}
use Prim.Native.String.{String, [], ◌∷◌, ◌++◌, then, compare}
use Prim.Native.String.compare as str_compare
use mathlib.Core.Logic.{◌⊎◌, inl, inr}
use atividade_consenso_raft.Base.Separators.{without, part_unique}
use mathlib.Core.Path.{◌≡◌, refl}
use mathlib.Core.Bool.{Bool, true, false}
use native.Mathlib.Omega.{arith}
use text.Mathlib.Text.{is_lt}
use text.Mathlib.TextEquality.{path_by_compare}

-- `a < b` on strings
unfoldable pub str_ltb : String → String → Bool
str_ltb a b = is_lt (compare a b)

flip : Ordering → Ordering
flip Ordering.lt = Ordering.gt
flip Ordering.eq = Ordering.eq
flip Ordering.gt = Ordering.lt

flip-then : (a b : Ordering) → flip (then a b) ≡ then (flip a) (flip b)
unfolding flip
flip-then Ordering.lt b = refl
flip-then Ordering.eq b = refl
flip-then Ordering.gt b = refl

compare_ℕ-flip : (m n : ℕ) → compare_ℕ n m ≡ flip (compare_ℕ m n)
unfolding flip
compare_ℕ-flip m n = ground arith

compare-flip : (a b : String) → compare b a ≡ flip (compare a b)
compare-flip [] [] = unfold flip in simp str_compare.nil-nil
compare-flip [] (d ∷ t) = unfold flip in simp (str_compare.cons-nil, str_compare.nil-cons)
compare-flip (c ∷ s) [] = unfold flip in simp (str_compare.cons-nil, str_compare.nil-cons)
compare-flip (c ∷ s) (d ∷ t) =
    simp (str_compare.cons-cons, flip-then, compare-flip s t, compare_ℕ-flip (code c) (code d))

-- Of two texts one is less, or they are equal.
pub str_ltb-cases :
    (a b : String)
    → ((str_ltb a b ≡ true) × (str_ltb b a ≡ false))
      ⊎ ((str_ltb a b ≡ false) × (str_ltb b a ≡ true))
      ⊎ (a ≡ b)
unfolding str_ltb flip
str_ltb-cases a b = split (compare a b) refl
  where
    split :
        (o : Ordering)
        → compare a b ≡ o
        → ((str_ltb a b ≡ true) × (str_ltb b a ≡ false))
          ⊎ ((str_ltb a b ≡ false) × (str_ltb b a ≡ true))
          ⊎ (a ≡ b)
    split Ordering.lt h = inl (rw h, rw (compare-flip a b, h))
    split Ordering.eq h = inr (inr (path_by_compare a b h))
    split Ordering.gt h = inr (inl (rw h, rw (compare-flip a b, h)))

-- `${a}|${b}`
unfoldable pub join_bar : String → String → String
join_bar a b = a ++ ("|" ++ b)

abbrev bar : Char
bar = "|"

-- A text without the separator.
unfoldable pub bar_free : String → Bool
unfolding without
bar_free s = without bar s

-- Without a separator in the first parts, a joined text shows its parts.
pub join_bar_injective :
    (a b c d : String)
    → bar_free a ≡ true
    → bar_free c ≡ true
    → join_bar a b ≡ join_bar c d
    → (a ≡ c) × (b ≡ d)
unfolding bar_free join_bar
join_bar_injective a b c d p q h = part_unique bar "" a b c d p q h
