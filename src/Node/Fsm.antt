-- ===== src/Node/Fsm.antt =====
-- infra/node/fsm.go: the replicated key-value store. The log comes from hashicorp/raft, and encoding/json
-- reads and writes; both are parameters.
pub mod Replay
use atividade_consenso_raft.Base.{
  ℕ, String, Bool, true, false, Option, none, some, List, [], ◌∷◌, ◌++◌, Map, get?, insert, remove,
  string_eq, ◌==◌, is_some, or_default, if◌then◌else◌,
}
use atividade_consenso_raft.Node.Message.{Published, event}

-- CmdPut and CmdDel are two values of a string.
abbrev pub cmd_put : String
cmd_put = "PUT"

abbrev pub cmd_del : String
cmd_del = "DEL"

pub record Command : Type 0 where
  pub type : String
  pub key : String
  pub value : String

-- `raft.Log`, as far as the program reads it; `is_command` is `Type == raft.LogCommand`.
pub record Log (D : Type 0) : Type 0 where
  pub index : ℕ
  pub term : ℕ
  pub is_command : Bool
  pub content : D

-- `kvFSM`
pub record Fsm : Type 0 where
  pub store : Map String String
  pub node_id : String

unfoldable pub new_fsm : String → Fsm
new_fsm node_id = record { store = []; node_id = node_id }

unfoldable pub execute : Command → Map String String → Map String String
unfolding insert remove
execute cmd store =
    if cmd.type == cmd_put
    then insert cmd.key cmd.value store
    else if cmd.type == cmd_del
    then remove cmd.key store
    else store

-- The event of a command that has been carried out.
abbrev pub applied : {D : Type 0} → String → Log D → Command → Published
applied node_id l cmd = record (event "apply" node_id) {
  index = l.index;
  term = l.term;
  command = cmd.type;
  key = cmd.key;
  value = cmd.value;
}

module _ {D : Type 0} (unmarshal : D → Option Command) where
  -- The result is whether the command could be decoded, the next state and what is published.
  unfoldable pub apply : Log D → Fsm → Bool × Fsm × List Published
  unfolding execute
  apply l f = elim (unmarshal l.content) [
    | none ↦ (false, f, [])
    | some cmd ↦ (true, record f { store = execute cmd f.store }, applied f.node_id l cmd ∷ [])
  ]

  -- The library applies the entries one after the other.
  unfoldable pub apply_all : List (Log D) → Fsm → Fsm × List Published
  unfolding apply
  apply_all [] f = (f, [])
  apply_all (l ∷ ls) f =
      let (decoded, f', out) = apply l f in let (f'', outs) = apply_all ls f' in (f'', out ++ outs)

-- `Snapshot` and `all` copy the store.
unfoldable pub snapshot : Fsm → Map String String
snapshot f = f.store

unfoldable pub all : Fsm → Map String String
all f = f.store

unfoldable pub get : String → Fsm → Option String
unfolding get?
get key f = get? key f.store

-- `Persist`: none if the encoder failed and the sink was cancelled.
unfoldable pub persist :
    {T : Type 0} → (Map String String → Option T) → Map String String → Option T
persist encode state = encode state

-- `Restore`: no change if the snapshot cannot be read.
unfoldable pub restore : {T : Type 0} → (T → Option (Map String String)) → T → Fsm → Bool × Fsm
restore decode t f = elim (decode t) [
  | none ↦ (false, f)
  | some snap ↦ (true, record f { store = snap })
]
