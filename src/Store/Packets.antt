-- ===== src/Store/Packets.antt =====
-- The operations of infra/dashboard/js/store.js on the packets in flight.
use atividade_consenso_raft.Base.{ℕ, nat_eq, ◌==◌, not, [], ◌∷◌, ◌++◌, select}
use atividade_consenso_raft.Store.State.{Packet, State}

unfoldable pub record_packet : Packet → State → State
record_packet packet s = record s { packets = s.packets ++ packet ∷ [] }

unfoldable pub remove_packet : ℕ → State → State
remove_packet id s = record s { packets = select (λ p. not (p.id == id)) s.packets }
