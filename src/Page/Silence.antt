-- ===== src/Page/Silence.antt =====
-- How the page notices a broken link: by the silence of AppendEntriesResp.
use atividade_consenso_raft.Base.{
  ℕ, ◌+◌, ◌*◌, ◌<◌, String, string_eq, option_eq, Bool, true, false, ◌&&◌, Option, some, none, List,
  [], ◌∷◌, ◌≡◌, refl, ◌↔◌, ap, ◌∙◌, inl, inr, arith, Option-cases, get?, ◌==◌, All,
}
use atividade_consenso_raft.Event.{Event, prop_key}
use atividade_consenso_raft.Store.State.{State, Link, link_key}
use atividade_consenso_raft.Store.Nodes.{
  Partial, update_node, set_leader, set_match_index, set_heartbeat_ms,
}
use atividade_consenso_raft.Store.Links.{tick_silence, mark_resp_seen, silence}
use atividade_consenso_raft.Store.Links.Silence.{
  link_of, get?-mark_key, tick_silence_down, silent, get?-silence_all,
}
use atividade_consenso_raft.Store.Logs.{append_log}
use atividade_consenso_raft.Store.Packets.{record_packet, remove_packet}
use atividade_consenso_raft.Store.Isolation.{
  set_declared_partitions, clear_declared_partitions, toggle_pending_isolation, commit_pending,
  release_applied,
}
use atividade_consenso_raft.World.{World, with_state, Request, fire}
use atividade_consenso_raft.Handlers.{
  on_state, on_role_change, on_leader_change, on_apply, on_log_entry, on_replication, state_partial,
  role_partial,
}
use atividade_consenso_raft.Handlers.Rpc.{on_rpc_send, on_rpc_resp, launch, packet_of}
use atividade_consenso_raft.Main.{deliver}
use atividade_consenso_raft.Main.Routing.{deliver_cases}
use atividade_consenso_raft.Sse.{
  SnapshotEntry, snapshot_event, deliver_entries, fetch_snapshot, with_node, on_message,
}
use atividade_consenso_raft.Controls.Words.{put_random}
use atividade_consenso_raft.Controls.{
  ask_partition, click_apply, click_isolate, majority_of, answered, answer, lose, pull,
}
use atividade_consenso_raft.Page.{Task, message, snapshot, tick, press_apply, answers, act, run}

-- Does this event answer on the link with this key?
abbrev pub answers_on : String → Event → Bool
answers_on k e =
    e.rpc == some "AppendEntriesResp" && link_key (prop_key e.from) (prop_key e.to) == k

-- No task of the list brings an answer on the link.
abbrev pub IsQuiet : String → Task → Type 0
IsQuiet k (message id (some e)) = answers_on k e ≡ false
IsQuiet k _ = Unit

-- When the link was last heard.
abbrev pub last_resp_of : Option Link → Option ℕ
last_resp_of none = none
last_resp_of (some l) = some l.last_resp

last_resp_of-silent :
    (now limit : ℕ) (o : Option Link) → last_resp_of (silent now limit o) ≡ last_resp_of o
unfolding silent silence
last_resp_of-silent now limit none = refl
last_resp_of-silent now limit (some l) = refl

abbrev pub heard : String → World → Option ℕ
heard k w = last_resp_of (get? k w.state.links)

with_node_quiet :
    (k id : String) (e : Event) → answers_on k e ≡ false → answers_on k (with_node id e) ≡ false
unfolding with_node
with_node_quiet k id e h = ground arith

snapshot_quiet : (k id : String) (e : SnapshotEntry) → answers_on k (snapshot_event id e) ≡ false
unfolding snapshot_event
snapshot_quiet k id e = refl

module _ (k : String) where
  quiet_mark :
      (a b : String) (t : ℕ) (s : State)
      → (link_key a b == k) ≡ false
      → get? k (mark_resp_seen a b t s).links ≡ get? k s.links
  unfolding mark_resp_seen
  quiet_mark a b t s h = rw (get?-mark_key (link_key a b) k t s, h)

  quiet_resp :
      (e : Event) (w : World)
      → answers_on k e ≡ false
      → get? k (on_rpc_resp e w).state.links ≡ get? k w.state.links
  unfolding on_rpc_resp launch record_packet
  quiet_resp e w h = ground (
    arith,
    quiet_mark (prop_key e.from) (prop_key e.to) w.date_now
        (launch (packet_of e e.success e.granted w) w).state,
  )

  update_node-links :
      (id : String) (p : Partial) (now : ℕ) (s : State) → (update_node id p now s).links ≡ s.links
  unfolding update_node
  update_node-links id p now s = ground arith

  quiet_state : (e : Event) (w : World) → (on_state e w).state.links ≡ w.state.links
  unfolding on_state set_heartbeat_ms
  quiet_state e w =
      ground (arith, update_node-links (prop_key e.node) (state_partial e) w.date_now w.state)

  quiet_deliver :
      (e : Event) (w : World)
      → answers_on k e ≡ false
      → get? k (deliver e w).state.links ≡ get? k w.state.links
  unfolding on_role_change on_leader_change set_leader on_apply append_log on_log_entry
      on_replication set_match_index on_rpc_send launch record_packet
  quiet_deliver e w h =
      deliver_cases (λ w'. get? k w'.state.links ≡ get? k w.state.links) e w refl
        (ap (get? k) (quiet_state e w))
        (ap (get? k) (update_node-links (prop_key e.node) (role_partial e) w.date_now w.state))
        (ground arith) (ground arith) (quiet_resp e w h) refl (ground arith) (ground arith)

  quiet_entries :
      (id : String) (entries : List SnapshotEntry) (w : World)
      → get? k (deliver_entries id entries w).state.links ≡ get? k w.state.links
  unfolding deliver_entries
  quiet_entries id [] w = refl
  quiet_entries id (e ∷ entries) w =
      quiet_entries id entries (deliver (snapshot_event id e) w)
      ∙ quiet_deliver (snapshot_event id e) w (snapshot_quiet k id e)

  answered-links : (r : Request) (ok : Bool) (s : State) → (answered r ok s).links ≡ s.links
  unfolding answered commit_pending release_applied clear_declared_partitions
      set_declared_partitions
  answered-links r ok s = ground arith

  quiet_answer : (i : ℕ) (ok : Bool) (w : World) → (answer i ok w).state.links ≡ w.state.links
  unfolding answer
  quiet_answer i ok w = elim (Option-cases (pull i w.requests)) [
    | inl e ↦ rw (e, answer)
    | inr ((r, rs), e) ↦ rw (e, answer) (answered-links r ok w.state)
  ]

  quiet_apply :
      (isolate majority : List String) (w : World)
      → (ask_partition isolate majority w).state.links ≡ w.state.links
  unfolding ask_partition
  quiet_apply isolate majority w = ground arith

  heard_tick : (now : ℕ) (w : World) → heard k (with_state (tick_silence now) w) ≡ heard k w
  unfolding tick_silence
  heard_tick now w =
      ap last_resp_of (get?-silence_all now (2 * w.state.heartbeat_ms) k w.state.links)
      ∙ last_resp_of-silent now (2 * w.state.heartbeat_ms) (get? k w.state.links)

  heard-act : (w : World) (t : Task) → IsQuiet k t → heard k (act w t) ≡ heard k w
  unfolding act click_apply click_isolate toggle_pending_isolation fetch_snapshot on_message lose
      put_random fire remove_packet
  heard-act w (message id (some e)) q =
      ap last_resp_of (quiet_deliver (with_node id e) w (with_node_quiet k id e q))
  heard-act w (message id none) q = refl
  heard-act w (snapshot id (some entries)) q = ap last_resp_of (quiet_entries id entries w)
  heard-act w (answers i ok) q = ap last_resp_of (ap (get? k) (quiet_answer i ok w))
  heard-act w press_apply q =
      ap last_resp_of (ap (get? k) (quiet_apply w.state.pending_isolations (majority_of w.state) w))
  heard-act w tick q = heard_tick w.date_now w
  heard-act w t q = ground arith

  heard-run : (ts : List Task) (w : World) → All (IsQuiet k) ts → heard k (run w ts) ≡ heard k w
  unfolding run
  heard-run [] w q = refl
  heard-run (t ∷ ts) w (q, qs) = heard-run ts (act w t) qs ∙ heard-act w t q

heard_some :
    (o : Option Link) {r : ℕ}
    → last_resp_of o ≡ some r
    → (l : Link) × (o ≡ some l) × (l.last_resp ≡ r)
heard_some none h = cc
heard_some (some l) h = (l, refl, cc)

-- For a link that the store has: after any tasks among which no AppendEntriesResp came over it,
-- the next tick shows it as down exactly when more than two heartbeats, as they are set then,
-- have gone by since it was last heard.
pub tick_after_quiet :
    (a b : String) (w : World) (ts : List Task) (l : Link)
    → link_of a b w.state ≡ some l
    → All (IsQuiet (link_key a b)) ts
    → let w' = run w ts in
      (l' : Link) × (link_of a b (act w' tick).state ≡ some l')
      × ((l'.down ≡ true) ↔ (l.last_resp + 2 * w'.state.heartbeat_ms < w'.date_now))
unfolding act
tick_after_quiet a b w ts l h q =
    let k = link_key a b in
    let (m, there, same) =
      heard_some (get? k (run w ts).state.links) (heard-run k ts w q ∙ ap last_resp_of h) in
    let (l', shown, _, down) = tick_silence_down (run w ts).date_now (run w ts).state a b m there in
    (l', shown, rw same at down)
