-- ===== src/Main/Names.antt =====
-- NODES of infra/dashboard/js/main.js: the names of the nodes from the configuration of the page.
pub mod Written
pub mod Clean
use Prim.Native.Char.{Char, code}
use Prim.Native.String.{String, ◌∷◌ as ◌∷ₛ◌}
use atividade_consenso_raft.Base.{
  ℕ, string_eq, nat_eq, ◌==◌, Bool, true, false, not, ◌&&◌, ◌||◌, Option, none, some, List, [], ◌∷◌,
  map, select, has, leb, if◌then◌else◌, trim_both, split,
}
use atividade_consenso_raft.Event.{is_text}

-- What `trim` takes away: white space and the ends of lines.
unfoldable pub is_space : Char → Bool
unfolding has
is_space c =
    (leb 9 (code c) && leb (code c) 13)
    || (leb 8192 (code c) && leb (code c) 8202)
    || has (code c) (32 ∷ 160 ∷ 5760 ∷ 8232 ∷ 8233 ∷ 8239 ∷ 8287 ∷ 12288 ∷ 65279 ∷ [])

-- `s.trim()`
unfoldable pub trim : String → String
unfolding is_space trim_both
trim s = trim_both is_space s

abbrev pub default_nodes : String
default_nodes = "node1,node2,node3"

-- `window.RAFT_NODES || 'node1,node2,node3'`
abbrev pub configured : Option String → String
configured none = default_nodes
configured (some s) = if s == "" then default_nodes else s

unfoldable pub node_names : Option String → List String
unfolding split trim
node_names raft_nodes = select (λ s. not (s == "")) (map trim (split "," (configured raft_nodes)))
