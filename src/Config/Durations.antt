-- ===== src/Config/Durations.antt =====
-- How long a packet is shown, against the heartbeat.
use atividade_consenso_raft.Base.{
  ℕ, ◌+◌, ◌*◌, ◌≤◌, String, string_eq, option_eq, nat_eq, some, get?, ◌≡◌, refl, arith, ◌==◌, ltb,
  if_case,
}
use atividade_consenso_raft.Config.{packet_fractions, duration_for}
use atividade_consenso_raft.Event.{Event, or_zero}
use atividade_consenso_raft.Handlers.Rpc.{packet_kind_for}

-- A kind of packet that the table has.
abbrev pub IsKind : String → Type 0
IsKind kind = (f : ℕ) × (get? kind packet_fractions ≡ some f) × (25 ≤ f) × (f ≤ 60)

-- The kind of every event is one of the table: the fallback fraction is never used.
pub packet_kind_for-IsKind : (e : Event) → IsKind (packet_kind_for e)
unfolding packet_kind_for get?
packet_kind_for-IsKind e =
    if_case IsKind (e.type == "rpc_send")
      (if_case IsKind (e.rpc == some "AppendEntries")
        (if_case IsKind (ltb 0 (or_zero e.entries)) (50, refl, omega arith, omega arith) heartbeat)
        (if_case IsKind (e.rpc == some "RequestVote") (25, refl, omega arith, omega arith)
          (if_case IsKind (e.rpc == some "InstallSnapshot") (60, refl, omega arith, omega arith)
            heartbeat)))
      (if_case IsKind (e.type == "rpc_resp")
        (if_case IsKind (e.rpc == some "AppendEntriesResp") (30, refl, omega arith, omega arith)
          (if_case IsKind (e.rpc == some "RequestVoteResp") (25, refl, omega arith, omega arith)
            heartbeat))
        heartbeat)
  where
    heartbeat : IsKind "heartbeat"
    heartbeat = (35, refl, omega arith, omega arith)

-- For a heartbeat of at least 125 ms, the animation of the packet of any event takes at least a
-- quarter of the heartbeat, and ends, with the 50 ms after which the packet is removed, within
-- the heartbeat.
pub duration_for_bounds :
    (e : Event) (heartbeat_ms : ℕ)
    → 125 ≤ heartbeat_ms
    → (25 * heartbeat_ms ≤ duration_for (packet_kind_for e) heartbeat_ms)
      × (duration_for (packet_kind_for e) heartbeat_ms + 5000 ≤ 100 * heartbeat_ms)
unfolding duration_for
duration_for_bounds e heartbeat_ms enough =
    let (f, known, low, high) = packet_kind_for-IsKind e in rw known (grind arith, grind arith)
