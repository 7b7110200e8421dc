-- ===== src/Base/Splitting.antt =====
-- A text cut into its parts at a separator.
use Prim.Native.Char.{Char, code}
use Prim.Native.String.{String, ◌∷◌ as ◌∷ₛ◌, ◌++◌ as ◌++ₛ◌}
use Prim.Native.String.append
use mathlib.Core.Path.{◌≡◌, refl, ap, ◌∙◌}
use mathlib.Core.Bool.{Bool, true, false}
use mathlib.Core.Logic.{inl, inr}
use mathlib.Core.List.{List, [], ◌∷◌}
use native.Mathlib.Omega.{arith}
use atividade_consenso_raft.Base.Tests.{nat_eq, ◌==◌, Bool-cases, if◌then◌else◌}
use atividade_consenso_raft.Base.Lists.{All}
use atividade_consenso_raft.Base.Separators.{without, join}

abbrev pub same_char : Char → Char → Bool
same_char a b = code a == code b

-- A character more before the first part.
abbrev pub prepend : Char → List String → List String
prepend d [] = []
prepend d (part ∷ parts) = (d ∷ₛ part) ∷ parts

-- `s.split(c)`
unfoldable pub split : Char → String → List String
split c String.[] = "" ∷ []
split c (d ∷ₛ s) = let rest = split c s in if same_char d c then "" ∷ rest else prepend d rest

-- No part has the separator in it.
prepend-without :
    (c d : Char) (parts : List String)
    → same_char d c ≡ false
    → All (λ s. without c s ≡ true) parts
    → All (λ s. without c s ≡ true) (prepend d parts)
unfolding without
prepend-without c d [] h v = tt
prepend-without c d (a ∷ parts) h v = (ground (arith, v.0), v.1)

pub split_parts : (c : Char) (s : String) → All (λ a. without c a ≡ true) (split c s)
unfolding split without
split_parts c String.[] = (refl, tt)
split_parts c (d ∷ₛ s) = elim (Bool-cases (same_char d c)) [
  | inl cut ↦ rw (cut, split) (refl, split_parts c s)
  | inr on ↦ rw (on, split) (prepend-without c d (split c s) on (split_parts c s))
]

-- Without the separator a text is one part, and before one it is the first of the parts.
pub split-without : (c : Char) (a : String) → without c a ≡ true → split c a ≡ a ∷ []
unfolding split without
split-without c String.[] h = refl
split-without c (d ∷ₛ a) h = ground (arith, split-without c a)

pub split-cut :
    (c : Char) (a b : String) → without c a ≡ true → split c (a ++ₛ (c ∷ₛ b)) ≡ a ∷ split c b
unfolding split without
split-cut c String.[] b h = ap (split c) (append.nil (c ∷ₛ b)) ∙ ground arith
split-cut c (d ∷ₛ a) b h = ap (split c) (append.cons d a (c ∷ₛ b)) ∙ ground (arith, split-cut c a b)

-- Parts without the separator that are joined by it are the parts again.
pub split-join :
    (a : String) (parts : List String)
    → All (λ s. without "," s ≡ true) (a ∷ parts)
    → split "," (join "," (a ∷ parts)) ≡ a ∷ parts
unfolding join
split-join a [] v = split-without "," a v.0
split-join a (b ∷ parts) v =
    ap (λ s. split "," (a ++ₛ s))
      (append.cons "," "" (join "," (b ∷ parts)) ∙ ap ("," ∷ₛ◌) (append.nil _))
    ∙ split-cut "," a (join "," (b ∷ parts)) v.0
    ∙ ap (a ∷◌) (split-join b parts v.1)
