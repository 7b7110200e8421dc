-- ===== src/Joint.antt =====
-- The page and the broker together: what the fetch calls of infra/dashboard/js/views/controlsView.js and
-- nodeCardView.js send, what infra/broker/broker.py answers, and what the page does then.
pub mod Partition
pub mod Release
pub mod Heal
pub mod Feed
use atividade_consenso_raft.Base.{
  ℕ, String, Bool, Option, none, some, List, [], ◌∷◌, leb, ◌&&◌, or_default,
}
use atividade_consenso_raft.World.{
  World, Request, kill_leader, heal_all, kill_node, release_node, heal_node, put, partition,
}
use atividade_consenso_raft.Controls.{pull, answer}
use atividade_consenso_raft.Broker.Docker.{Environment, Setup}
use atividade_consenso_raft.Broker.{Body, empty_body, Reply, do_post}

-- The path without /control, which the proxy of the page takes off.
abbrev pub path_of : Request → String
path_of kill_leader = "/kill-leader"
path_of heal_all = "/heal"
path_of (kill_node id) = "/kill-node"
path_of (release_node id) = "/heal-node"
path_of (heal_node id) = "/heal-node"
path_of (put key value) = "/put"
path_of (partition isolate majority) = "/partition"

-- A field that is undefined is left out of the JSON.
abbrev pub body_of : Request → Body
body_of kill_leader = empty_body
body_of heal_all = empty_body
body_of (kill_node id) = record empty_body { node = some id }
body_of (release_node id) = record empty_body { node = some id }
body_of (heal_node id) = record empty_body { node = some id }
body_of (put key value) = record empty_body { key = key; value = value }
body_of (partition isolate majority) = record empty_body {
  isolate = some isolate;
  majority = some majority;
}

-- `resp.ok`
abbrev pub is_ok : Reply → Bool
is_ok r = leb 200 r.status && leb r.status 299

-- The page, and the machine with the containers.
pub record System (M : Type 0) : Type 0 where
  pub page : World
  pub machine : M

module _ {M : Type 0} (env : Environment M) (setup : Setup) where
  unfoldable pub serve : Request → M → Reply × M
  serve r m = do_post env setup (path_of r) (some (body_of r)) m

  -- The broker takes up the request at a position, and its answer reaches the page.
  unfoldable pub exchange : ℕ → System M → System M
  unfolding pull serve
  exchange i s = elim (pull i s.page.requests) [
    | none ↦ s
    | some (r, rs) ↦
        let (rep, m') = serve r s.machine in
        record { page = answer i (is_ok rep) s.page; machine = m' }
  ]
