-- ===== src/Store/Links/Keys.antt =====
-- The key of a link names its two ends, in whatever order they are given.
use atividade_consenso_raft.Base.{
  String, true, ◌≡◌, sym, ◌∙◌, ◌⊎◌, inl, inr, str_ltb, str_ltb-cases, join_bar, bar_free,
  join_bar_injective, Bool-cases,
}
use atividade_consenso_raft.Store.State.{link_key}

-- `linkKey(a, b)` is `linkKey(b, a)`.
pub link_key_comm : (a b : String) → link_key a b ≡ link_key b a
unfolding link_key
link_key_comm a b = elim (str_ltb-cases a b) [
  | inl (less, more) ↦ rw (less, more)
  | inr (inl (less, more)) ↦ rw (less, more)
  | inr (inr same) ↦ rw same
]

abbrev pub SameEnds : String → String → String → String → Type 0
SameEnds a b c d = ((a ≡ c) × (b ≡ d)) ⊎ ((a ≡ d) × (b ≡ c))

-- A key is the join of the two ends, in one order or the other.
link_key-cases : (a b : String) → (link_key a b ≡ join_bar a b) ⊎ (link_key a b ≡ join_bar b a)
unfolding link_key
link_key-cases a b = elim (Bool-cases (str_ltb a b)) [
  | inl less ↦ inl (rw less)
  | inr more ↦ inr (rw more)
]

-- Two links between nodes whose names lack the separator have one key only if they join the same
-- two nodes.
pub link_key_injective :
    (a b c d : String)
    → bar_free a ≡ true
    → bar_free b ≡ true
    → bar_free c ≡ true
    → bar_free d ≡ true
    → link_key a b ≡ link_key c d
    → SameEnds a b c d
link_key_injective a b c d fa fb fc fd h = decide (link_key-cases a b) (link_key-cases c d)
  where
    decide :
        (link_key a b ≡ join_bar a b) ⊎ (link_key a b ≡ join_bar b a)
        → (link_key c d ≡ join_bar c d) ⊎ (link_key c d ≡ join_bar d c)
        → SameEnds a b c d
    decide (inl p) (inl q) = inl (join_bar_injective a b c d fa fc (sym p ∙ h ∙ q))
    decide (inl p) (inr q) = inr (join_bar_injective a b d c fa fd (sym p ∙ h ∙ q))
    decide (inr p) (inl q) =
        let (u, v) = join_bar_injective b a c d fb fc (sym p ∙ h ∙ q) in inr (v, u)
    decide (inr p) (inr q) =
        let (u, v) = join_bar_injective b a d c fb fd (sym p ∙ h ∙ q) in inl (v, u)
