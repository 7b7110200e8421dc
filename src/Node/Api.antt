-- ===== src/Node/Api.antt =====
-- infra/node/http.go: the requests of clients. The consensus, the store of the log and encoding/json are
-- parameters.
pub mod Writes
use atividade_consenso_raft.Base.{
  ℕ, suc, zero, ◌+◌, ◌-◌, String, Bool, true, false, not, Option, none, some, List, [], ◌∷◌, nat_eq,
  string_eq, ◌==◌, Map, is_some, or_default, if◌then◌else◌,
}
use atividade_consenso_raft.Sse.{SnapshotEntry}
use atividade_consenso_raft.Node.Message.{text_field}
use atividade_consenso_raft.Node.State.{Stats, role_name, atoi_or}
use atividade_consenso_raft.Node.Fsm.{Command, Log, Fsm, cmd_put, cmd_del, get, all}

pub record KvRequest : Type 0 where
  pub key : String
  pub value : String

-- What `/status` says; the numbers of `Stats()` are read by atoiOr.
pub record NodeStatus : Type 0 where
  pub node : String
  pub role : String
  pub term : ℕ
  pub commit_idx : ℕ
  pub last_log_idx : ℕ
  pub leader_id : String
  pub leader_addr : String
  pub store : Map String String

pub data Answer : Type 0 where
  bad_request : String → Answer
  internal_error : Answer
  not_leader : String → String → Answer
  accepted : ℕ → Answer
  found : String → String → Bool → String → Answer
  status : NodeStatus → Answer
  entries : String → ℕ → ℕ → List SnapshotEntry → Answer

-- The status code of an answer.
abbrev pub status_code : Answer → ℕ
status_code (bad_request message) = 400
status_code internal_error = 500
status_code (not_leader node leader) = 503
status_code _ = 200

-- The library as the handlers use it, on a state that it changes. `propose` is `Apply(data, 5s)` with the
-- wait for its future: an index, or none if it failed.
pub record Raft (S D : Type 0) : Type 0 where
  pub is_leader : S → Bool
  pub leader_id : S → String
  pub leader_addr : S → String
  pub stats : S → Stats
  pub propose : D → S → Option ℕ × S
  pub fsm : S → Fsm

-- `raft.LogStore`; none is an error.
pub record LogStore (D : Type 0) : Type 0 where
  pub first_index : Option ℕ
  pub last_index : Option ℕ
  pub get_log : ℕ → Option (Log D)

module _ {S D : Type 0} (raft : Raft S D) (marshal : Command → Option D) where
  unfoldable pub submit : Command → S → Answer × S
  submit cmd s =
      if not (raft.is_leader s)
      then (not_leader (raft.fsm s).node_id (raft.leader_id s), s)
      else elim (marshal cmd) [
        | none ↦ (internal_error, s)
        | some content ↦
            let (index, s') = raft.propose content s in
            (elim index [ none ↦ internal_error | some i ↦ accepted i ], s')
      ]

  unfoldable pub handle_command : (KvRequest → Command) → Option KvRequest → S → Answer × S
  unfolding submit
  handle_command command none s = (bad_request "", s)
  handle_command command (some req) s =
      if req.key == "" then (bad_request "key required", s) else submit (command req) s

  unfoldable pub handle_put : Option KvRequest → S → Answer × S
  unfolding handle_command
  handle_put body s =
      handle_command (λ req. record { type = cmd_put; key = req.key; value = req.value }) body s

  unfoldable pub handle_delete : Option KvRequest → S → Answer × S
  unfolding handle_command
  handle_delete body s =
      handle_command (λ req. record { type = cmd_del; key = req.key; value = "" }) body s

unfoldable pub handle_get : {S D : Type 0} → Raft S D → String → S → Answer
unfolding get
handle_get raft key s =
    if key == ""
    then bad_request "key required"
    else found key (or_default (get key (raft.fsm s)) "") (is_some (get key (raft.fsm s)))
        (raft.fsm s).node_id

unfoldable pub handle_status : {S D : Type 0} → Raft S D → S → Answer
unfolding all
handle_status raft s = status (record {
  node = (raft.fsm s).node_id;
  role = role_name (raft.stats s).state;
  term = atoi_or (raft.stats s).term;
  commit_idx = atoi_or (raft.stats s).commit_index;
  last_log_idx = atoi_or (raft.stats s).last_log_index;
  leader_id = raft.leader_id s;
  leader_addr = raft.leader_addr s;
  store = all (raft.fsm s);
})

abbrev pub entry_of : {D : Type 0} → Log D → Command → SnapshotEntry
entry_of rec cmd = record {
  index = some rec.index;
  term = some rec.term;
  command = some cmd.type;
  key = some cmd.key;
  value = text_field cmd.value;
}

module _ {D : Type 0} (unmarshal : D → Option Command) where
  -- The entry of a record that could be read, is a command and can be decoded, before the others.
  unfoldable pub collect : Option (Log D) → List SnapshotEntry → List SnapshotEntry
  collect none out = out
  collect (some rec) out =
      if not rec.is_command
      then out
      else elim (unmarshal rec.content) [ none ↦ out | some cmd ↦ entry_of rec cmd ∷ out ]

  -- `for i := first; i <= last && i != 0; i++`, for a number of rounds that is `last + 1 - first`. A
  -- counter that passes the greatest uint64 is 0, which ends the loop where its rounds end too.
  unfoldable pub read_from : ℕ → ℕ → (ℕ → Option (Log D)) → List SnapshotEntry
  unfolding collect
  read_from i zero get_log = []
  read_from i (suc rounds) get_log = collect (get_log i) (read_from (i + 1) rounds get_log)

  unfoldable pub read_log : ℕ → ℕ → (ℕ → Option (Log D)) → List SnapshotEntry
  unfolding read_from
  read_log first last get_log =
      if first == 0 then [] else read_from first (last + 1 - first) get_log

  unfoldable pub handle_log : String → LogStore D → Answer
  unfolding read_log
  handle_log node_id store = elim store.first_index [
    | none ↦ internal_error
    | some first ↦ elim store.last_index [
      | none ↦ internal_error
      | some last ↦ entries node_id first last (read_log first last store.get_log)
    ]
  ]
