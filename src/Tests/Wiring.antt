-- ===== src/Tests/Wiring.antt =====
-- The theorems on the wiring of the page at concrete inputs.
use atividade_consenso_raft.Base.{
  arith, select, ℕ, false, true, some, none, List, [], ◌∷◌, All, without, string_eq, nat_eq, ◌≡◌,
  refl, if◌then◌else◌,
}
use atividade_consenso_raft.Store.Subscribers.{Live}
use atividade_consenso_raft.Store.Isolation.{clear_declared_partitions, toggle_pending_isolation}
use atividade_consenso_raft.Store.Nodes.{set_heartbeat_ms}
use atividade_consenso_raft.World.{World, heal_all}
use atividade_consenso_raft.Controls.{ask}
use atividade_consenso_raft.Main.Whole.{Whole, deliver_all}
use atividade_consenso_raft.Main.Whole.Both.{handle_all, deliver_all_lem}
use atividade_consenso_raft.Config.{stream_window}
use atividade_consenso_raft.Views.Filters.{compose_filters}
use atividade_consenso_raft.Views.Stream.Window.{take, rev_onto}
use atividade_consenso_raft.Main.Names.{node_names, trim}
use atividade_consenso_raft.Main.Names.Written.{IsName}
use atividade_consenso_raft.Main.Names.Clean.{node_names-IsName}
use atividade_consenso_raft.Page.{start, run, act, answers}
use atividade_consenso_raft.Page.Known.{KnowsNode}
use atividade_consenso_raft.Page.Known.Start.{pairs, IsLinked, run_start-known}
use atividade_consenso_raft.Page.Errors.{refuses_heal, failure-keeps}
use atividade_consenso_raft.Sse.Sources.{Signal, opened, received, failed}
use atividade_consenso_raft.Views.Banner.{banner_of}
use atividade_consenso_raft.Views.Screen.{
  Screen, mount_views, Step, elapse, change, cards_interval, resize, steps,
}
use atividade_consenso_raft.Views.Screen.Current.{IsCurrent, steps-IsCurrent}
use atividade_consenso_raft.Views.Summary.{summary}
use atividade_consenso_raft.Tests.Data.{three_nodes, node1_page, page_of, state_event, append_event}
use atividade_consenso_raft.Tests.Integers.{integers}
use atividade_consenso_raft.Tests.Geometry.{begun, blank_scene}

run_start-known_example :
    ((run (start three_nodes 0 0) (answers 0 true ∷ [])).state.node_ids ≡ three_nodes)
    × All (λ id. KnowsNode id (run (start three_nodes 0 0) (answers 0 true ∷ [])).state) three_nodes
    × All
        (IsLinked (run (start three_nodes 0 0) (answers 0 true ∷ [])).state.links)
        (pairs three_nodes)
run_start-known_example = run_start-known three_nodes 0 0 (answers 0 true ∷ [])

abbrev some_signals : List (ℕ × Signal)
some_signals =
    (0, opened (some []))
    ∷ (0, received (some state_event))
    ∷ (1, failed)
    ∷ (0, received (some append_event))
    ∷ []

-- "Curar tudo" is under way on a page with a declared partition.
abbrev healing : World
healing =
    ask heal_all (page_of [] ("node3" ∷ []) (("node3" ∷ []) ∷ ("node1" ∷ "node2" ∷ []) ∷ []) [])

failure-keeps_example : (act healing (answers 0 false)).state ≡ (
    if refuses_heal healing (answers 0 false)
    then clear_declared_partitions healing.state
    else healing.state)
failure-keeps_example = failure-keeps healing (answers 0 false) tt

node1_IsName : IsName "node1"
unfolding without trim
node1_IsName = record { not_empty = refl; one_part = refl; trimmed = refl }

node_names-IsName_example : All IsName (node_names (some " raft-a, raft-b,, "))
node_names-IsName_example = node_names-IsName (some " raft-a, raft-b,, ")

abbrev bare_page : Live Screen
bare_page = record {
  state = begun;
  subs = [];
  view = record {
    now = 0;
    width = integers.of_nat 60;
    height = integers.of_nat 40;
    topology = blank_scene;
    cards = [];
    logs = none;
    apply = none;
    banner = banner_of [];
    summary = summary begun;
  };
}

abbrev some_steps : List Step
some_steps =
    elapse 500
    ∷ change (toggle_pending_isolation "node2")
    ∷ resize (integers.of_nat 80) (integers.of_nat 40)
    ∷ elapse 20
    ∷ cards_interval
    ∷ change (set_heartbeat_ms 2000)
    ∷ []

steps-IsCurrent_example : IsCurrent (steps some_steps (mount_views bare_page))
steps-IsCurrent_example = steps-IsCurrent some_steps bare_page refl

abbrev whole : Whole
whole = record {
  world = node1_page;
  stream = record { active = "hideStateSnapshots" ∷ []; lines = [] };
}

deliver_all_lem_example :
    let events = state_event ∷ append_event ∷ [] in
    let whole' = deliver_all events whole in
    (whole'.world ≡ handle_all events whole.world)
    × (whole'.stream.lines
        ≡ take stream_window
            (rev_onto (select (compose_filters whole.stream.active) events) whole.stream.lines))
    × (whole'.stream.active ≡ whole.stream.active)
deliver_all_lem_example = deliver_all_lem (state_event ∷ append_event ∷ []) whole (omega arith)
