-- ===== src/Views/NodeCard/Text.antt =====
-- The text that infra/dashboard/js/views/nodeCardView.js puts on a card.
use atividade_consenso_raft.Base.{
  ℕ, String, Bool, true, false, ◌&&◌, Option, none, some, List, [], ◌∷◌, map, concat, join, decimal,
  if◌then◌else◌,
}
use atividade_consenso_raft.Store.State.{NodeState}
use atividade_consenso_raft.Store.Nodes.{is_leader}

abbrev pub is_listed : {A : Type 0} → List A → Bool
is_listed [] = false
is_listed (x ∷ xs) = true

-- `${p}: ${i}`
abbrev pub match_part : String × ℕ → String
match_part (p, i) = concat (p ∷ ": " ∷ decimal i ∷ [])

unfoldable pub match_text : NodeState → String
unfolding concat join
match_text n =
    if is_leader n.role && is_listed n.match_index
    then concat
        ("<div class=\"match\">match: " ∷ join " · " (map match_part n.match_index) ∷ "</div>" ∷ [])
    else ""

-- The badge with the index that reached its quorum.
unfoldable pub badge_text : Option ℕ → String
unfolding concat
badge_text none = ""
badge_text (some index) =
    concat ("<span class=\"badge-quorum\">quórum atingido idx=" ∷ decimal index ∷ "</span>" ∷ [])

abbrev pub value_text : String → ℕ → String → List String → List String
value_text label n end rest =
    "\n        " ∷ label ∷ " <span class=\"v\">" ∷ decimal n ∷ "</span>" ∷ end ∷ rest

unfoldable pub card_stats : NodeState → Option ℕ → String
unfolding concat badge_text match_text
card_stats n quorum = concat (
    value_text "term" n.term " ·" (
      value_text "commit" n.commit_idx " ·" (
        value_text "last_log" n.last_log_idx " ·" (
          value_text "applied" n.last_applied ""
            ("\n        " ∷ badge_text quorum ∷ "\n        " ∷ match_text n ∷ "\n      " ∷ [])))))
