-- ===== src/Node/Transport.antt =====
-- infra/node/transport.go: what is published of the calls between the nodes. The transport inside and its
-- answers come from hashicorp/raft.
use atividade_consenso_raft.Base.{
  ℕ, ◌+◌, ◌%◌, String, Bool, not, Option, none, some, List, [], ◌∷◌, ◌++◌, Map, length,
  if◌then◌else◌, ◌≡◌, refl, append-nil, ap,
}
use atividade_consenso_raft.Node.Message.{Published, event}
use atividade_consenso_raft.Node.Fsm.{Log, Command}
use atividade_consenso_raft.Node.Acks.{observe}

pub record AppendRequest (D : Type 0) : Type 0 where
  pub term : ℕ
  pub prev_log_entry : ℕ
  pub entries : List (Log D)

pub record AppendResponse : Type 0 where
  pub term : ℕ
  pub success : Bool

pub record VoteResponse : Type 0 where
  pub term : ℕ
  pub granted : Bool

-- `observingTransport` and `observingPipeline`; the tracker may be nil.
pub record Transport : Type 0 where
  pub node_id : String
  pub tracker : Option (Map String ℕ)

abbrev pub u64 : ℕ
u64 = 18446744073709551616

-- `args.PrevLogEntry + uint64(len(args.Entries))`
unfoldable pub high_idx : {D : Type 0} → AppendRequest D → ℕ
high_idx args = (args.prev_log_entry + length args.entries) % u64

-- The `rpc_send` of a call, and the `rpc_resp` of an answer.
abbrev pub send_event : String → String → String → ℕ → Published
send_event node_id id rpc term = record (event "rpc_send" node_id) {
  from = node_id;
  to = id;
  rpc = rpc;
  term = term;
}

abbrev pub resp_event : String → String → String → ℕ → Published
resp_event node_id id rpc term = record (event "rpc_resp" node_id) {
  from = id;
  to = node_id;
  rpc = rpc;
  term = term;
}

abbrev pub log_entry_event : {D : Type 0} → String → String → Log D → Command → Published
log_entry_event leader_id peer_id l cmd = record (event "log_entry" leader_id) {
  from = leader_id;
  to = peer_id;
  index = l.index;
  term = l.term;
  command = cmd.type;
  key = cmd.key;
  value = cmd.value;
}

-- `resp.Success && tracker != nil`
unfoldable pub acknowledge : Bool → String → ℕ → Transport → Transport
unfolding observe
acknowledge success id idx t = elim t.tracker [
  | none ↦ t
  | some tracked ↦ if success then record t { tracker = some (observe id idx tracked) } else t
]

-- A future that the pipeline's consumer brings: its request may be missing, and its answer.
unfoldable pub bridge :
    {D : Type 0}
    → Transport
    → String
    → Option (AppendRequest D)
    → Option AppendResponse
    → Transport × List Published
unfolding acknowledge
bridge t id req none = (t, [])
bridge t id none (some resp) = (
  acknowledge resp.success id 0 t,
  record (resp_event t.node_id id "AppendEntriesResp" resp.term) { success = resp.success } ∷ [],
)
bridge t id (some args) (some resp) = (
  acknowledge resp.success id (high_idx args) t,
  record (resp_event t.node_id id "AppendEntriesResp" resp.term) {
    success = resp.success;
    entries = length args.entries;
    index = high_idx args;
  }
      ∷ [],
)

module _ {D : Type 0} (unmarshal : D → Option Command) where
  unfoldable pub emit_log_entries : String → String → List (Log D) → List Published
  emit_log_entries leader_id peer_id [] = []
  emit_log_entries leader_id peer_id (l ∷ entries) =
      let rest = emit_log_entries leader_id peer_id entries in
      if not l.is_command then rest else elim (unmarshal l.content) [
        | none ↦ rest
        | some cmd ↦ log_entry_event leader_id peer_id l cmd ∷ rest
      ]

  -- `observingPipeline.AppendEntries`, and the first half of `observingTransport.AppendEntries`.
  unfoldable pub append_sent : Transport → String → AppendRequest D → List Published
  unfolding emit_log_entries high_idx
  append_sent t id args =
      record (send_event t.node_id id "AppendEntries" args.term) {
        prev_idx = args.prev_log_entry;
        entries = length args.entries;
        index = high_idx args;
      }
      ∷ emit_log_entries t.node_id id args.entries

  -- The answer to a call of AppendEntries: none if it failed.
  unfoldable pub append_entries :
      Transport → String → AppendRequest D → Option AppendResponse → Transport × List Published
  unfolding append_sent acknowledge
  append_entries t id args none = (t, append_sent t id args)
  append_entries t id args (some resp) = (
    acknowledge resp.success id (high_idx args) t,
    append_sent t id args
        ++ record (resp_event t.node_id id "AppendEntriesResp" resp.term) {
          success = resp.success;
          entries = length args.entries;
          index = high_idx args;
        }
          ∷ [],
  )

  -- A call over the pipeline and its future publish together what a plain call does, and leave the same
  -- tracker, whether it is answered or fails.
  pub bridge-append_entries :
      (t : Transport) (id : String) (args : AppendRequest D) (resp : Option AppendResponse)
      → let (t', answer) = bridge t id (some args) resp in
        (t', append_sent t id args ++ answer) ≡ append_entries t id args resp
  unfolding bridge append_entries
  bridge-append_entries t id args none = ap (λ out. (t, out)) (append-nil (append_sent t id args))
  bridge-append_entries t id args (some resp) = refl

unfoldable pub request_vote : Transport → String → ℕ → Option VoteResponse → List Published
request_vote t id term none = send_event t.node_id id "RequestVote" term ∷ []
request_vote t id term (some resp) =
    send_event t.node_id id "RequestVote" term
    ∷ record (resp_event t.node_id id "RequestVoteResp" resp.term) { granted = resp.granted }
    ∷ []

unfoldable pub install_snapshot : Transport → String → ℕ → List Published
install_snapshot t id term = send_event t.node_id id "InstallSnapshot" term ∷ []
