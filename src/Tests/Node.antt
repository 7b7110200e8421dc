-- ===== src/Tests/Node.antt =====
-- The theorems on the program of a node at concrete inputs, with a library that commits at once.
use Prim.Native.String.{String}
use atividade_consenso_raft.Base.{
  ℕ, ◌≤◌, max, nat_eq, string_eq, true, false, Option, some, List, [], ◌∷◌, ◌++◌, Map, get?,
  or_default, ◌≡◌, refl, sym,
}
use atividade_consenso_raft.Node.Message.{Published, event}
use atividade_consenso_raft.Node.Fsm.{
  Command, Log, Fsm, apply_all, snapshot, persist, restore, get, new_fsm,
}
use atividade_consenso_raft.Node.Fsm.Replay.{decided, get-apply_all, IsCodec, restore-apply_all}
use atividade_consenso_raft.Node.Acks.{match_of, observe_all, greatest, observe_all-match_of}
use atividade_consenso_raft.Node.State.{follower}
use atividade_consenso_raft.Node.Api.{
  Raft, KvRequest, found, handle_put, handle_delete, handle_get, submit,
}
use atividade_consenso_raft.Node.Api.Writes.{Commits, IsJson, handle_get-handle_put}
use atividade_consenso_raft.Node.Hub.{Hub, HubTask, publishes, receives, serve_all}
use atividade_consenso_raft.Node.Hub.Sublists.{Sub}
use atividade_consenso_raft.Node.Hub.Order.{received, told}
use atividade_consenso_raft.Node.Hub.Accepted.{accepted, received-accepted}
use atividade_consenso_raft.Node.Start.{resolve_advertise, parse_peers}
use atividade_consenso_raft.Node.Start.Peers.{address_of, resolve_advertise-parse_peers}

-- The contents of an entry are the command itself here.
abbrev read : Command → Option Command
read cmd = some cmd

abbrev put_a : String → Command
put_a v = record { type = "PUT"; key = "a"; value = v }

abbrev log_of_put : ℕ → String → Log Command
log_of_put i v = record { index = i; term = 1; is_command = true; content = put_a v }

abbrev first_logs : List (Log Command)
first_logs = log_of_put 1 "x" ∷ []

abbrev more_logs : List (Log Command)
more_logs = log_of_put 2 "y" ∷ []

abbrev blank : Fsm
blank = record { store = []; node_id = "node1" }

get-apply_all_example :
    get "a" (apply_all read first_logs blank).0
    ≡ or_default (decided read "a" first_logs) (get "a" blank)
get-apply_all_example = get-apply_all read "a" first_logs blank

abbrev kept : Map String String → Option (Map String String)
kept m = some m

store_IsCodec : IsCodec kept kept
store_IsCodec = record { reads = λ m t written. (m, sym written, λ k. refl) }

restore-apply_all_example :
    let (restored, g) =
      restore kept (snapshot (apply_all read first_logs blank).0) (new_fsm "node2") in
    (restored ≡ true)
    × (get "a" (apply_all read more_logs g).0
        ≡ get "a" (apply_all read (first_logs ++ more_logs) blank).0)
unfolding persist
restore-apply_all_example =
    restore-apply_all read kept kept first_logs more_logs blank (new_fsm "node2")
      (snapshot (apply_all read first_logs blank).0) "a" store_IsCodec refl

abbrev acks : List (String × ℕ)
acks = ("node2", 4) ∷ ("node2", 3) ∷ []

abbrev more_acks : List (String × ℕ)
more_acks = ("node3", 9) ∷ []

abbrev tracked : Map String ℕ
tracked = []

observe_all-match_of_example :
    (match_of "node2" (observe_all (acks ++ more_acks) tracked)
      ≡ max (greatest "node2" (acks ++ more_acks)) (match_of "node2" tracked))
    × (match_of "node2" tracked ≤ match_of "node2" (observe_all (acks ++ more_acks) tracked))
    × (match_of "node2" (observe_all (acks ++ more_acks) tracked)
        ≡ match_of "node2" (observe_all (more_acks ++ acks) tracked))
observe_all-match_of_example = observe_all-match_of "node2" acks more_acks tracked

-- A library that commits what is proposed, as the entry of index 7.
abbrev entry7 : Command → Log Command
entry7 cmd = record { index = 7; term = 2; is_command = true; content = cmd }

abbrev single : Raft Fsm Command
single = record {
  is_leader = λ f. true;
  leader_id = λ f. f.node_id;
  leader_addr = λ f. "";
  stats = λ f. record {
    state = follower;
    term = "2";
    commit_index = "7";
    last_log_index = "7";
    applied_index = "7";
  };
  propose = λ cmd f. (some 7, (apply_all read ([] ++ entry7 cmd ∷ []) f).0);
  fsm = λ f. f;
}

single-Commits : Commits single read
single-Commits = record { applies = λ cmd f i done. ([], entry7 cmd, refl, refl) }

command_IsJson : IsJson read read
command_IsJson = record { reads = λ cmd t written. sym written }

abbrev request : KvRequest
request = record { key = "a"; value = "x" }

handle_get-handle_put_example :
    (handle_get single "a" (handle_put single read (some request) blank).1
      ≡ found "a" "x" true "node1")
    × (handle_get single "a" (handle_delete single read (some request) blank).1
        ≡ found "a" "" false "node1")
unfolding handle_put handle_delete submit
handle_get-handle_put_example =
    handle_get-handle_put single read read "a" "x" blank blank 7 7 single-Commits command_IsJson
      refl refl

abbrev hub_tasks : List HubTask
hub_tasks = publishes (event "apply" "node1") ∷ receives 0 ∷ publishes (event "state" "node1") ∷ []

abbrev no_events : List Published
no_events = []

abbrev one_stream : Hub
one_stream = (0, no_events) ∷ []

received-accepted_example :
    (rest : List Published) × (get? 0 (serve_all hub_tasks one_stream) ≡ some rest)
    × (received 0 hub_tasks one_stream ++ rest ≡ no_events ++ accepted 0 256 0 hub_tasks)
    × Sub (accepted 0 256 0 hub_tasks) (told hub_tasks)
unfolding get?
received-accepted_example = received-accepted 0 hub_tasks one_stream no_events tt refl

-- A channel of one event that is full refuses the next.
missed :
    accepted 0 1 0 (publishes (event "a" "n") ∷ publishes (event "b" "n") ∷ []) ≡ event "a" "n" ∷ []
missed = refl

resolve_advertise-parse_peers_example :
    resolve_advertise "b" "0.0.0.0:7000" "a=x:1, b=y:2"
    ≡ or_default (address_of "b" (parse_peers "a=x:1, b=y:2")) "0.0.0.0:7000"
resolve_advertise-parse_peers_example =
    resolve_advertise-parse_peers "b" "0.0.0.0:7000" "a=x:1, b=y:2"

own_line : resolve_advertise "b" "0.0.0.0:7000" "a=x:1, b=y:2" ≡ "y:2"
unfolding resolve_advertise
own_line = refl
