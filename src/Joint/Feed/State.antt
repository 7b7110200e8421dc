-- ===== src/Joint/Feed/State.antt =====
-- The state that a node tells of itself (infra/node/main.go), as the page takes it.
use atividade_consenso_raft.Base.{
  ℕ, ◌<◌, String, false, some, nat_eq, string_eq, ◌==◌, decimal, or_default, ◌≡◌, refl, ap, ap₂,
  ◌∙◌, arith, if◌then◌else◌,
}
use atividade_consenso_raft.Event.{Event, is_text, or_zero, is_positive, prop_key}
use atividade_consenso_raft.Store.State.{State}
use atividade_consenso_raft.Store.Nodes.{Partial, update_node, set_heartbeat_ms}
use atividade_consenso_raft.World.{World}
use atividade_consenso_raft.Handlers.{on_state, state_partial}
use atividade_consenso_raft.Main.{deliver}
use atividade_consenso_raft.Main.Routing.{deliver-eq-handle}
use atividade_consenso_raft.Sse.{on_message}
use atividade_consenso_raft.Node.Message.{encode, or_zero-number_field, text_field, number_field}
use atividade_consenso_raft.Node.Transport.{u64}
use atividade_consenso_raft.Node.State.{
  RaftState, follower, candidate, leader, shutdown, Stats, role_name, poll_state, atoi_or,
  atoi_or-decimal,
}
use atividade_consenso_raft.Joint.Feed.Links.{with_node-text, is_text-text_field}

-- The numbers of a node's consensus.
pub record Progress : Type 0 where
  pub state : RaftState
  pub term : ℕ
  pub commit_index : ℕ
  pub last_log_index : ℕ
  pub applied_index : ℕ

-- `Stats()` writes them in decimal digits.
abbrev pub stats_of : Progress → Stats
stats_of p = record {
  state = p.state;
  term = decimal p.term;
  commit_index = decimal p.commit_index;
  last_log_index = decimal p.last_log_index;
  applied_index = decimal p.applied_index;
}

pub record FitsU64 (p : Progress) : Type 0 where
  pub term : p.term < u64
  pub commit_index : p.commit_index < u64
  pub last_log_index : p.last_log_index < u64
  pub applied_index : p.applied_index < u64

-- What the page is to take over.
abbrev pub partial_of : Progress → Partial
partial_of p = record {
  role = some (some (role_name p.state));
  term = some p.term;
  commit_idx = some p.commit_index;
  last_log_idx = some p.last_log_index;
  last_applied = some p.applied_index;
}

abbrev state_message : String → ℕ → Progress → Event
state_message id heartbeat_ms p = encode (poll_state id heartbeat_ms (stats_of p))

role_told :
    (r : RaftState)
    → (if is_text (text_field (role_name r))
        then or_default (text_field (role_name r)) ""
        else "follower")
      ≡ role_name r
role_told follower = refl
role_told candidate = refl
role_told leader = refl
role_told shutdown = refl

number_told : (n : ℕ) → n < u64 → or_zero (number_field (atoi_or (decimal n))) ≡ n
number_told n fits = or_zero-number_field (atoi_or (decimal n)) ∙ atoi_or-decimal n fits

state_partial-state_message :
    (id : String) (heartbeat_ms : ℕ) (p : Progress)
    → FitsU64 p
    → state_partial (state_message id heartbeat_ms p) ≡ partial_of p
unfolding encode poll_state
state_partial-state_message id heartbeat_ms p fits = λ i. record {
  role = some (some (role_told p.state i));
  term = some (number_told p.term fits.term i);
  commit_idx = some (number_told p.commit_index fits.commit_index i);
  last_log_idx = some (number_told p.last_log_index fits.last_log_index i);
  last_applied = some (number_told p.applied_index fits.applied_index i);
}

pub prop_key-text_field : (s : String) → (s == "") ≡ false → prop_key (text_field s) ≡ s
prop_key-text_field s full = rw full refl

set_heartbeat : ℕ → State → State
set_heartbeat heartbeat_ms s =
    if is_positive (number_field heartbeat_ms)
    then set_heartbeat_ms (or_zero (number_field heartbeat_ms)) s
    else s

set_heartbeat_lem :
    (heartbeat_ms : ℕ) (s : State) → set_heartbeat heartbeat_ms s ≡ set_heartbeat_ms heartbeat_ms s
unfolding set_heartbeat set_heartbeat_ms
set_heartbeat_lem heartbeat_ms s = ground arith

-- When a named node tells its state, the page sets that node's role, term and indices to what the
-- node's consensus has, all below 2^64, and takes over its heartbeat, if that is not 0.
pub on_message-poll_state :
    (id : String) (heartbeat_ms : ℕ) (p : Progress) (w : World)
    → (id == "") ≡ false
    → FitsU64 p
    → (on_message id (some (encode (poll_state id heartbeat_ms (stats_of p)))) w).state
      ≡ set_heartbeat_ms heartbeat_ms (update_node id (partial_of p) w.date_now w.state)
unfolding on_message on_state set_heartbeat encode poll_state
on_message-poll_state id heartbeat_ms p w named fits =
    ap (λ e. (deliver e w).state)
      (with_node-text id (state_message id heartbeat_ms p) (is_text-text_field id named))
    ∙ ap (λ w'. w'.state) (deliver-eq-handle (state_message id heartbeat_ms p) w)
    ∙ ap₂ (λ k q. set_heartbeat heartbeat_ms (update_node k q w.date_now w.state))
        (prop_key-text_field id named) (state_partial-state_message id heartbeat_ms p fits)
    ∙ set_heartbeat_lem heartbeat_ms (update_node id (partial_of p) w.date_now w.state)
