-- ===== src/Views/Screen.antt =====
-- The views that infra/dashboard/js/main.js mounts on the store: each draws when it subscribes and at
-- every change. The stream is mounted on the bus and not here.
pub mod Current
use atividade_consenso_raft.Base.{ℕ, ◌+◌, String, Option, List, [], ◌∷◌, map, none}
use atividade_consenso_raft.Bus.{Handler, returned}
use atividade_consenso_raft.Geometry.Arithmetic.{Numbers}
use atividade_consenso_raft.Store.State.{State}
use atividade_consenso_raft.Store.Subscribers.{Live, subscribe, unsubscribe, update}
use atividade_consenso_raft.Controls.{apply_label}
use atividade_consenso_raft.Views.Banner.{Banner, render_banner}
use atividade_consenso_raft.Views.LogPanel.{Cell, log_panel}
use atividade_consenso_raft.Views.NodeCard.{Card, render_card}
use atividade_consenso_raft.Views.Summary.{Summary, summary}
use atividade_consenso_raft.Views.Topology.Scene.{Scene, render, relayout}

abbrev pub cards_of : State → ℕ → List (Option Card)
cards_of s now = map (render_card s now) s.node_ids

module _ ⦃m : Numbers⦄ where
  -- What is drawn, with the clock and the size of the topology's element.
  pub record Screen : Type 0 where
    pub now : ℕ
    pub width : m.Number
    pub height : m.Number
    pub topology : Scene
    pub cards : List (Option Card)
    pub logs : Option (List (ℕ × List Cell))
    pub apply : Option String
    pub banner : Banner
    pub summary : Summary

  abbrev pub view : ℕ → (State → Screen → Screen) → Handler State Screen
  view id draw = record { id = id; run = λ s v. (draw s v, returned) }

  abbrev pub draw_topology : State → Screen → Screen
  draw_topology s v = record v { topology = render s v.now v.width v.height v.topology }

  abbrev pub draw_cards : State → Screen → Screen
  draw_cards s v = record v { cards = cards_of s v.now }

  abbrev pub draw_logs : State → Screen → Screen
  draw_logs s v = record v { logs = log_panel s v.now }

  abbrev pub draw_apply : State → Screen → Screen
  draw_apply s v = record v { apply = apply_label s }

  abbrev pub draw_banner : State → Screen → Screen
  draw_banner s v = record v { banner = render_banner s }

  abbrev pub draw_summary : State → Screen → Screen
  draw_summary s v = record v { summary = summary s }

  -- In the order of main.js.
  unfoldable pub mount_views : Live Screen → Live Screen
  unfolding subscribe
  mount_views l =
      let l1 = (subscribe (view 0 draw_topology) l).0 in
      let l2 = (subscribe (view 1 draw_cards) l1).0 in
      let l3 = (subscribe (view 2 draw_logs) l2).0 in
      let l4 = (subscribe (view 3 draw_apply) l3).0 in
      let l5 = (subscribe (view 4 draw_banner) l4).0 in (subscribe (view 5 draw_summary) l5).0

  -- What happens to the mounted views: time goes on; the store changes; the interval of the cards or of
  -- the table of logs runs out; the element of the topology changes its size.
  pub data Step : Type 0 where
    elapse : ℕ → Step
    change : (State → State) → Step
    cards_interval logs_interval : Step
    resize : m.Number → m.Number → Step

  unfoldable pub step : Step → Live Screen → Live Screen
  unfolding update relayout
  step (elapse ms) l = record l { view = record l.view { now = l.view.now + ms } }
  step (change mutator) l = (update mutator l).0
  step cards_interval l = record l { view = draw_cards l.state l.view }
  step logs_interval l = record l { view = draw_logs l.state l.view }
  step (resize width height) l = record l {
    view = record l.view {
      width = width;
      height = height;
      topology = relayout l.state width height l.view.topology;
    };
  }

  unfoldable pub steps : List Step → Live Screen → Live Screen
  unfolding step
  steps [] l = l
  steps (s ∷ rest) l = steps rest (step s l)

  -- `destroy` of a view: its subscription ends, and its interval, if it has one, runs out no more.
  unfoldable pub destroy : ℕ → Live Screen → Live Screen
  unfolding unsubscribe
  destroy id l = unsubscribe id l
