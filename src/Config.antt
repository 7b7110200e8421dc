-- ===== src/Config.antt =====
-- infra/dashboard/js/config.js. Fractions of the heartbeat are counted in hundredths, and durations
-- in hundredths of a millisecond.
pub mod Durations
use atividade_consenso_raft.Base.{
  ℕ, ◌*◌, String, ◌∷◌, [], Option, none, some, Map, get?, string_eq, or_default,
}

abbrev pub poll_tick_ms : ℕ
poll_tick_ms = 500

abbrev pub log_window : ℕ
log_window = 30

abbrev pub stream_window : ℕ
stream_window = 80

abbrev pub heartbeat_ms_fallback : ℕ
heartbeat_ms_fallback = 5000

abbrev pub highlight_apply_ms : ℕ
highlight_apply_ms = 1500

abbrev pub highlight_quorum_ms : ℕ
highlight_quorum_ms = 2000

abbrev pub packet_fractions : Map String ℕ
packet_fractions =
    ("heartbeat", 35)
    ∷ ("entries", 50)
    ∷ ("appendResp", 30)
    ∷ ("vote", 25)
    ∷ ("voteResp", 25)
    ∷ ("snapshot", 60)
    ∷ []

unfoldable pub duration_for : String → ℕ → ℕ
unfolding get?
duration_for kind heartbeat_ms = or_default (get? kind packet_fractions) 12 * heartbeat_ms

pub record Colors : Type 0 where
  pub heartbeat : String
  pub entries : String
  pub append_resp_ok : String
  pub append_resp_fail : String
  pub vote : String
  pub vote_granted : String
  pub vote_denied : String
  pub snapshot : String

abbrev pub packet_colors : Colors
packet_colors = record {
  heartbeat = "var(--rpc-heartbeat)";
  entries = "var(--rpc-entries)";
  append_resp_ok = "var(--rpc-append-resp)";
  append_resp_fail = "var(--rpc-vote-denied)";
  vote = "var(--rpc-vote)";
  vote_granted = "var(--rpc-vote-granted)";
  vote_denied = "var(--rpc-vote-denied)";
  snapshot = "var(--rpc-snapshot)";
}

-- The box of a node and the space that is kept around it, in pixels.
pub record Box : Type 0 where
  pub w : ℕ
  pub h : ℕ

abbrev pub node_box : Box
node_box = record { w = 160; h = 130 }

abbrev pub node_exclusion_pad : ℕ
node_exclusion_pad = 8
