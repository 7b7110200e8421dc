-- ===== src/Tests/Geometry.antt =====
-- The theorems on the geometry and the topology at concrete inputs.
use atividade_consenso_raft.Base.{
  ℕ, String, ◌*◌, ◌+◌, true, some, none, List, [], ◌∷◌, map, length, get?, insert, string_eq, has,
  ◌≡◌, refl,
}
use mathlib.Core.Int.{ℤ, pos}
use mathlib.Core.Nat.{zero as none_of}
use atividade_consenso_raft.Store.State.{State, Packet, create_store, initial_node}
use atividade_consenso_raft.Handlers.Rpc.{packet_of}
use atividade_consenso_raft.Page.{Task, start, run, pass, message}
use atividade_consenso_raft.Geometry.{Point, layout}
use atividade_consenso_raft.Views.NodeCard.{Card, render_card}
use atividade_consenso_raft.Views.Topology.Panes.{Box}
use atividade_consenso_raft.Views.Topology.Scene.{Scene, render_links, render}
use atividade_consenso_raft.Views.Topology.Scene.Boxes.{render-card}
use atividade_consenso_raft.Views.Topology.Scene.Lines.{parts_of, pair_parts, render_links_complete}
use atividade_consenso_raft.Page.Known.Start.{pairs}
use atividade_consenso_raft.Tests.Data.{three_nodes, append_event, resp_event, node1_page}
use atividade_consenso_raft.Tests.Integers.{integers, unary}

abbrev point : ℕ → ℕ → Point ℤ
point x y = record { cx = pos (unary x); cy = pos (unary y) }

abbrev on_left : Point ℤ
on_left = point 20 60

abbrev on_right : Point ℤ
on_right = point 40 60

abbrev centre : Point ℤ
centre = point 30 40

abbrev pub blank_scene : Scene
blank_scene = record {
  boxes = [];
  positions = [];
  center = point 0 0;
  width = pos none_of;
  height = pos none_of;
  lines = [];
  dots = [];
}

abbrev pub begun : State
begun = (start three_nodes 0 0).state

node1_known : get? "node1" begun.nodes ≡ some (initial_node "node1")
unfolding start create_store get? insert
node1_known = refl

node1_listed : has "node1" begun.node_ids ≡ true
unfolding start create_store has
node1_listed = refl

render-card_example :
    (b : Box) × (c : Card) × (get? "node1"
        (render begun 2000 (pos (unary 60)) (pos (unary 40)) blank_scene).boxes
      ≡ some b)
    × (render_card begun 2000 "node1" ≡ some c)
    × (b.name ≡ "node1")
    × (b.data_role ≡ c.role)
    × (b.is_stale ≡ c.is_stale)
    × (b.is_disconnected ≡ c.heal_shown)
    × (b.is_pending ≡ c.is_pending)
render-card_example =
    render-card begun 2000 (pos (unary 60)) (pos (unary 40)) blank_scene "node1"
      (initial_node "node1") node1_listed node1_known

abbrev packet : Packet
packet = packet_of append_event none none node1_page

abbrev places : List (String × Point ℤ)
places = ("node1", on_left) ∷ ("node2", on_right) ∷ ("node3", point 30 61) ∷ []

render_links_complete_example :
    (map parts_of (
        render_links
          (run (start three_nodes 0 0) []).state
          (layout three_nodes (pos (unary 60)) (pos (unary 40))).positions)
      ≡ map
          (pair_parts
            (run (start three_nodes 0 0) []).state
            (layout three_nodes (pos (unary 60)) (pos (unary 40))).positions)
          (pairs three_nodes))
    × (2
            * length (
                render_links
                  (run (start three_nodes 0 0) []).state
                  (layout three_nodes (pos (unary 60)) (pos (unary 40))).positions)
          + 3
        ≡ 9)
render_links_complete_example =
    render_links_complete three_nodes 0 0 [] (pos (unary 60)) (pos (unary 40))

-- Node 2 answers the leader, and then nothing is heard for nine seconds.
abbrev heard_once : List Task
heard_once = pass 100 10000 ∷ message "node2" (some resp_event) ∷ []

abbrev silence : List Task
silence = message "node1" (some append_event) ∷ pass 9000 900000 ∷ []
