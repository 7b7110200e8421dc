-- ===== src/Views/Screen/Current.antt =====
-- What the views show is the state of the store.
use atividade_consenso_raft.Base.{ℕ, ◌≤◌, arith, nat_eq, List, [], ◌∷◌, ◌≡◌, refl, ap, sym, subst}
use native.Mathlib.Nat.{le_trans, le_refl}
use atividade_consenso_raft.Bus.{Handler, add_handler, holds, call_each, note}
use atividade_consenso_raft.Geometry.Arithmetic.{Numbers}
use atividade_consenso_raft.Store.State.{State}
use atividade_consenso_raft.Store.Subscribers.{Live, update, notify, subscribe}
use atividade_consenso_raft.Controls.{apply_label}
use atividade_consenso_raft.Views.Banner.{render_banner}
use atividade_consenso_raft.Views.LogPanel.{log_panel}
use atividade_consenso_raft.Views.Summary.{summary}
use atividade_consenso_raft.Views.Topology.Scene.{render, render_links, relayout}
use atividade_consenso_raft.Views.Screen.{
  Screen, cards_of, view, draw_topology, draw_cards, draw_logs, draw_apply, draw_banner,
  draw_summary, mount_views, Step, elapse, change, cards_interval, logs_interval, resize, step,
  steps,
}

module _ ⦃m : Numbers⦄ where
  abbrev all_views : List (Handler State Screen)
  all_views =
      view 0 draw_topology
      ∷ view 1 draw_cards
      ∷ view 2 draw_logs
      ∷ view 3 draw_apply
      ∷ view 4 draw_banner
      ∷ view 5 draw_summary
      ∷ []

  -- The views show the state; the cards and the table of logs show it as at a time that is not after now.
  pub record IsCurrent (l : Live Screen) : Type 0 where
    pub mounted : l.subs ≡ all_views
    pub cards : (t : ℕ) × (t ≤ l.view.now) × (l.view.cards ≡ cards_of l.state t)
    pub logs : (t : ℕ) × (t ≤ l.view.now) × (l.view.logs ≡ log_panel l.state t)
    pub lines : l.view.topology.lines ≡ render_links l.state l.view.topology.positions
    pub apply : l.view.apply ≡ apply_label l.state
    pub banner : l.view.banner ≡ render_banner l.state
    pub summary : l.view.summary ≡ summary l.state

  mount_views-IsCurrent : (l : Live Screen) → l.subs ≡ [] → IsCurrent (mount_views l)
  unfolding mount_views render subscribe add_handler holds
  mount_views-IsCurrent l none_yet = record {
    mounted = rw none_yet refl;
    cards = (l.view.now, le_refl l.view.now, refl);
    logs = (l.view.now, le_refl l.view.now, refl);
    lines = refl;
    apply = refl;
    banner = refl;
    summary = refl;
  }

  update-IsCurrent :
      (mutator : State → State) (l : Live Screen)
      → l.subs ≡ all_views
      → IsCurrent (update mutator l).0
  unfolding update render notify call_each note
  update-IsCurrent mutator l mounted =
      subst IsCurrent (ap (λ subs. (update mutator (record l { subs = subs })).0) (sym mounted))
        (record {
          mounted = refl;
          cards = (l.view.now, le_refl l.view.now, refl);
          logs = (l.view.now, le_refl l.view.now, refl);
          lines = refl;
          apply = refl;
          banner = refl;
          summary = refl;
        })

  step-IsCurrent : (s : Step) (l : Live Screen) → IsCurrent l → IsCurrent (step s l)
  unfolding step relayout
  step-IsCurrent (elapse ms) l v = record {
    mounted = v.mounted;
    cards = (v.cards.0, le_trans v.cards.1 (omega arith), v.cards.2);
    logs = (v.logs.0, le_trans v.logs.1 (omega arith), v.logs.2);
    lines = v.lines;
    apply = v.apply;
    banner = v.banner;
    summary = v.summary;
  }
  step-IsCurrent (change mutator) l v = update-IsCurrent mutator l v.mounted
  step-IsCurrent cards_interval l v = record {
    mounted = v.mounted;
    cards = (l.view.now, le_refl l.view.now, refl);
    logs = v.logs;
    lines = v.lines;
    apply = v.apply;
    banner = v.banner;
    summary = v.summary;
  }
  step-IsCurrent logs_interval l v = record {
    mounted = v.mounted;
    cards = v.cards;
    logs = (l.view.now, le_refl l.view.now, refl);
    lines = v.lines;
    apply = v.apply;
    banner = v.banner;
    summary = v.summary;
  }
  step-IsCurrent (resize width height) l v = record {
    mounted = v.mounted;
    cards = v.cards;
    logs = v.logs;
    lines = refl;
    apply = v.apply;
    banner = v.banner;
    summary = v.summary;
  }

  steps-kept : (ss : List Step) (l : Live Screen) → IsCurrent l → IsCurrent (steps ss l)
  unfolding steps
  steps-kept [] l v = v
  steps-kept (s ∷ ss) l v = steps-kept ss (step s l) (step-IsCurrent s l v)

  -- Once the views are mounted on a store without subscribers they show the state that the store is
  -- in, whatever changes come, time goes on, intervals run out or the size of the topology changes:
  -- the button, the banner, the summary and the lines of the topology show that state, and the
  -- cards and the table of logs show it as it was to be shown at some time up to now.
  pub steps-IsCurrent :
      (ss : List Step) (l : Live Screen) → l.subs ≡ [] → IsCurrent (steps ss (mount_views l))
  steps-IsCurrent ss l none_yet = steps-kept ss (mount_views l) (mount_views-IsCurrent l none_yet)
