-- ===== src/Views/Banner.antt =====
-- infra/dashboard/js/views/partitionsView.js: the banner of the declared partition.
pub mod Text
use atividade_consenso_raft.Base.{
  Bool, true, false, String, List, [], ◌∷◌, map, bracketed, concat, join,
}
use atividade_consenso_raft.Store.State.{State}

-- `(${group.join(', ')})`
unfoldable pub format_group : List String → String
unfolding bracketed join
format_group group = bracketed "(" ")" (join ", " group)

-- `is_active` is the class "ativa".
pub record Banner : Type 0 where
  pub text : String
  pub is_active : Bool

unfoldable pub banner_of : List (List String) → Banner
unfolding format_group concat join
banner_of [] = record { text = "Sem partição declarada."; is_active = false }
banner_of (g ∷ groups) = record {
  text = concat ("Partição declarada: " ∷ join " | " (map format_group (g ∷ groups)) ∷ []);
  is_active = true;
}

abbrev pub render_banner : State → Banner
render_banner s = banner_of s.declared_partitions
