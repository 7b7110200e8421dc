-- ===== src/Node/State.antt =====
-- infra/node/main.go and observer.go: what a node says of itself. Statistics and observations come from
-- hashicorp/raft.
use atividade_consenso_raft.Base.{
  ℕ, ◌<◌, String, Option, none, some, List, [], ◌∷◌, string_eq, ◌==◌, ltb, or_default, decimal,
  read_digits, read_digits-decimal, ◌≡◌, refl, ap, ◌∙◌, sym, subst, arith, Bool-cases, beq_sound,
  inl, inr, true, false, if◌then◌else◌,
}
use atividade_consenso_raft.Node.Message.{Published, event}
use atividade_consenso_raft.Node.Transport.{u64}

-- `strconv.ParseUint(s, 10, 64)`: an empty text, another character and too great a number are errors.
unfoldable pub parse_uint : String → Option ℕ
unfolding read_digits
parse_uint s =
    if s == ""
    then none
    else elim (read_digits 0 s) [ none ↦ none | some n ↦ if ltb n u64 then some n else none ]

unfoldable pub atoi_or : String → ℕ
unfolding parse_uint
atoi_or s = or_default (parse_uint s) 0

-- The states of the library, as `strings.ToLower` of their names.
pub data RaftState : Type 0 where
  follower candidate leader shutdown : RaftState

abbrev pub role_name : RaftState → String
role_name follower = "follower"
role_name candidate = "candidate"
role_name leader = "leader"
role_name shutdown = "shutdown"

-- What `Stats()` has at the keys that are read.
pub record Stats : Type 0 where
  pub state : RaftState
  pub term : String
  pub commit_index : String
  pub last_log_index : String
  pub applied_index : String

-- A round of `pollState`.
unfoldable pub poll_state : String → ℕ → Stats → Published
poll_state node_id heartbeat_ms stats = record (event "state" node_id) {
  role = role_name stats.state;
  term = atoi_or stats.term;
  commit_index = atoi_or stats.commit_index;
  last_log_idx = atoi_or stats.last_log_index;
  last_applied = atoi_or stats.applied_index;
  heartbeat_ms = heartbeat_ms;
}

pub data Observation : Type 0 where
  state_changed : RaftState → Observation
  leader_observed peer_observed : String → Observation
  vote_requested : String → ℕ → Observation
  another : Observation

-- What `registerObserver` publishes of an observation.
unfoldable pub observed : String → Observation → List Published
observed node_id (state_changed s) =
    record (event "role_change" node_id) { role = role_name s } ∷ []
observed node_id (leader_observed id) = record (event "leader_change" node_id) { to = id } ∷ []
observed node_id (peer_observed id) = record (event "peer_change" node_id) { to = id } ∷ []
observed node_id (vote_requested from term) =
    record (event "rpc_recv" node_id) { from = from; rpc = "RequestVote"; term = term } ∷ []
observed node_id another = []

decimal_not_empty : (n : ℕ) → (decimal n == "") ≡ false
unfolding decimal read_digits
decimal_not_empty n = elim (Bool-cases (decimal n == "")) [
  | inr full ↦ full
  | inl empty ↦
      let read : some 0 ≡ some n =
        sym (ap (read_digits 0) (beq_sound empty)) ∙ read_digits-decimal n in
      let none_left : n ≡ 0 = cc read in cc (subst (λ k. (decimal k == "") ≡ true) none_left empty)
]

-- A number that strconv writes in decimal digits and that is in the range of uint64 is read as it was.
pub atoi_or-decimal : (n : ℕ) → n < u64 → atoi_or (decimal n) ≡ n
unfolding atoi_or parse_uint
atoi_or-decimal n h =
    let fits : ltb n u64 ≡ true = ground arith in
    rw (decimal_not_empty n, read_digits-decimal n, fits) refl
