-- ===== src/World.antt =====
-- What the dashboard's page holds: the store's state, the counter of infra/dashboard/js/handlers/
-- rpcHandler.js, the timers and requests that are under way, and the two clocks.
use atividade_consenso_raft.Base.{ℕ, Option, String, List, [], nat_eq, ◌==◌, not, select}
use atividade_consenso_raft.Store.State.{State}
use atividade_consenso_raft.Store.Packets.{remove_packet}

-- `setTimeout(() => store.removePacket(packet.id), …)`
pub record Timer : Type 0 where
  pub packet : ℕ
  pub due : ℕ

-- What a button has asked the broker for.
pub data Request : Type 0 where
  kill_leader heal_all : Request
  kill_node release_node heal_node : String → Request
  put : Option String → Option String → Request
  partition : List String → List String → Request

-- `date_now` is in milliseconds, `perf_now` in hundredths of one.
pub record World : Type 0 where
  pub state : State
  pub packet_counter : ℕ
  pub timers : List Timer
  pub requests : List Request
  pub date_now : ℕ
  pub perf_now : ℕ

abbrev pub boot : State → ℕ → ℕ → World
boot state date_now perf_now = record {
  state = state;
  packet_counter = 0;
  timers = [];
  requests = [];
  date_now = date_now;
  perf_now = perf_now;
}

abbrev pub with_state : (State → State) → World → World
with_state f w = record w { state = f w.state }

-- A timer runs out.
unfoldable pub fire : ℕ → World → World
fire id w = record w {
  timers = select (λ t. not (t.packet == id)) w.timers;
  state = remove_packet id w.state;
}
