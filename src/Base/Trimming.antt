-- ===== src/Base/Trimming.antt =====
-- White space at the ends of a text, for the notion of white space that a language has.
use Prim.Native.Char.{Char}
use Prim.Native.String.{String, ◌∷◌ as ◌∷ₛ◌}
use mathlib.Core.Path.{◌≡◌, refl, ap, ◌∙◌}
use mathlib.Core.Bool.{Bool, true, ◌&&◌}
use mathlib.Core.Logic.{inl, inr}
use native.Mathlib.Omega.{arith}
use atividade_consenso_raft.Base.Tests.{string_eq, ◌==◌, Bool-cases, if◌then◌else◌, if_case}
use atividade_consenso_raft.Base.Separators.{without}

module _ (is_space : Char → Bool) where
  unfoldable pub trim_start : String → String
  trim_start String.[] = ""
  trim_start (d ∷ₛ s) = let rest = trim_start s in if is_space d then rest else d ∷ₛ s

  unfoldable pub trim_end : String → String
  trim_end String.[] = ""
  trim_end (d ∷ₛ s) = let rest = trim_end s in if is_space d && rest == "" then "" else d ∷ₛ rest

  unfoldable pub trim_both : String → String
  unfolding trim_start trim_end
  trim_both s = trim_end (trim_start s)

  trim_start-without :
      (c : Char) (s : String) → without c s ≡ true → without c (trim_start s) ≡ true
  unfolding trim_start without
  trim_start-without c String.[] h = refl
  trim_start-without c (d ∷ₛ s) h = ground (arith, trim_start-without c s)

  trim_end-without : (c : Char) (s : String) → without c s ≡ true → without c (trim_end s) ≡ true
  unfolding trim_end without
  trim_end-without c String.[] h = refl
  trim_end-without c (d ∷ₛ s) h =
      if_case (λ t. without c t ≡ true) (is_space d && trim_end s == "") refl
        (ground (arith, trim_end-without c s))

  -- What does not stand in a text does not stand in what is left of it.
  pub trim_both-without :
      (c : Char) (s : String) → without c s ≡ true → without c (trim_both s) ≡ true
  unfolding trim_both
  trim_both-without c s h = trim_end-without c (trim_start s) (trim_start-without c s h)

  trim_end-trim_end : (s : String) → trim_end (trim_end s) ≡ trim_end s
  unfolding trim_end
  trim_end-trim_end String.[] = refl
  trim_end-trim_end (d ∷ₛ s) = elim (Bool-cases (is_space d && trim_end s == "")) [
    | inl gone ↦ rw (gone, trim_end) refl
    | inr stays ↦ rw (stays, trim_end) (rw (trim_end-trim_end s, stays) refl)
  ]

  trim_start-trim_end :
      (s : String) → trim_start (trim_end (trim_start s)) ≡ trim_end (trim_start s)
  unfolding trim_start trim_end
  trim_start-trim_end String.[] = refl
  trim_start-trim_end (d ∷ₛ s) = elim (Bool-cases (is_space d)) [
    | inl space ↦ rw (space, trim_start) (trim_start-trim_end s)
    | inr black ↦ rw (black, trim_start, trim_end) (ground (arith, black))
  ]

  pub trim_both-trim_both : (s : String) → trim_both (trim_both s) ≡ trim_both s
  unfolding trim_both
  trim_both-trim_both s = ap trim_end (trim_start-trim_end s) ∙ trim_end-trim_end (trim_start s)
