-- ===== src/Joint/Feed/Drained.antt =====
-- The commands that a node's store carries out (infra/node/fsm.go), through the hub of the node's streams
-- (infra/node/event.go), to the page.
use atividade_consenso_raft.Base.{
  ℕ, ◌≤◌, false, Option, some, List, [], ◌++◌, string_eq, option_eq, nat_eq, ◌==◌, get?, length,
  Distinct, arith, append-nil, ◌≡◌, sym, ap, ◌∙◌,
}
use atividade_consenso_raft.Config.{log_window}
use atividade_consenso_raft.Store.Logs.Window.{indices}
use atividade_consenso_raft.Store.Logs.Commit.{log_of}
use atividade_consenso_raft.Store.Logs.Replay.{newest}
use atividade_consenso_raft.World.{World}
use atividade_consenso_raft.Node.Fsm.{Command, Log, Fsm, apply_all}
use atividade_consenso_raft.Node.Hub.{Hub, HubTask, capacity}
use atividade_consenso_raft.Node.Hub.Order.{Stays, told, received, left_of}
use atividade_consenso_raft.Node.Hub.Room.{received-all}
use atividade_consenso_raft.Joint.Feed.{deliver_published}
use atividade_consenso_raft.Joint.Feed.Applied.{committed_entries, apply_all-shown}

-- The channel of a subscriber that stays, has room for all that is published, and is empty in the end
-- brought all of it, in order.
received-told :
    (id : ℕ) (tasks : List HubTask) (hub : Hub)
    → Stays id tasks
    → get? id hub ≡ some []
    → length (told tasks) ≤ capacity
    → left_of id tasks [] ≡ []
    → received id tasks hub ≡ told tasks
received-told id tasks hub stays opened room drained =
    sym (append-nil (received id tasks hub))
    ∙ ap (received id tasks hub ++◌) (sym drained)
    ∙ received-all id tasks hub [] stays opened (omega arith)

-- A named node applies a log and publishes nothing else, while a stream of the page, open with an empty
-- channel, takes events from it at any time, until none is left. Where no more is published than the
-- channel has room for, the page's log is no longer than the window, and no index stands twice in it
-- and the commands together, the page's log of the node is then the newest of what it was and of the
-- commands that were carried out, as committed, in the order of the log.
pub apply_all-received :
    {D : Type 0} (unmarshal : D → Option Command) (ls : List (Log D)) (f : Fsm) (w : World) (id : ℕ)
    (tasks : List HubTask) (hub : Hub)
    → Stays id tasks
    → get? id hub ≡ some []
    → told tasks ≡ (apply_all unmarshal ls f).1
    → length (told tasks) ≤ capacity
    → left_of id tasks [] ≡ []
    → (f.node_id == "") ≡ false
    → length (log_of f.node_id w.state) ≤ log_window
    → Distinct (indices (log_of f.node_id w.state ++ committed_entries unmarshal ls))
    → log_of f.node_id (deliver_published f.node_id (received id tasks hub) w).state
      ≡ newest (log_of f.node_id w.state ++ committed_entries unmarshal ls)
apply_all-received unmarshal ls f w id tasks hub stays opened published room drained named short
      apart =
    rw (received-told id tasks hub stays opened room drained, published)
      (apply_all-shown unmarshal ls f w named short apart)
