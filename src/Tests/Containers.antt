-- ===== src/Tests/Containers.antt =====
-- Containers that do what docker documents, for the runs of the broker.
use Prim.Native.String.{String, ◌++◌ as ◌++ₛ◌}
use text.Mathlib.TextLemmas.{append_cancel_left}
use atividade_consenso_raft.Base.{
  nat_eq, string_eq, list_eq, ◌==◌, true, none, some, Option, List, [], ◌∷◌, has, refl, All, arith,
  Distinct, trim_both, if◌then◌else◌,
}
use atividade_consenso_raft.Broker.Docker.{Environment, Setup, Finished, answered, strip}
use atividade_consenso_raft.Broker.Network.{
  Network, IsDocker, IsAddress, started, stopped, inserted, deleted, flushed,
}
use atividade_consenso_raft.Broker.Cuts.{Up}
use atividade_consenso_raft.Joint.Partition.{AreDistinct}
use atividade_consenso_raft.Tests.Data.{three_nodes}

abbrev pub address : String → String
address n = "10.0.0." ++ₛ n

abbrev pub fine : String → Option Finished
fine out = some (record { returncode = 0; stdout = out; stderr = "" })

abbrev pub flush : String → List String → Network → Network
flush n [] net = net
flush n (chain ∷ rest) net = flushed n chain net

abbrev pub run_iptables : String → List String → Network → Network
run_iptables n (tool ∷ op ∷ rule) net =
    if op == "-I"
    then inserted n rule net
    else if op == "-D"
    then deleted n rule net
    else if op == "-F"
    then flush n rule net
    else net
run_iptables n _ net = net

abbrev pub run_inspect : List String → Network → Option Finished
run_inspect (template ∷ n ∷ []) net = fine (if net.up n then address n else "")
run_inspect _ net = fine ""

abbrev pub run_docker : List String → Network → Option Finished × Network
run_docker (docker ∷ cmd ∷ n ∷ rest) net =
    if cmd == "inspect" then (run_inspect rest net, net) else (
      fine "",
      if cmd == "start"
          then started n net
          else if cmd == "stop"
          then stopped n net
          else if cmd == "exec"
          then run_iptables n rest net
          else net,
    )
run_docker _ net = (none, net)

abbrev pub containers : Environment Network
containers = record {
  run = run_docker;
  get = λ url net. (none, net);
  post = λ url key value net. (answered 200 "", net);
}

abbrev pub same : Network → Network
same net = net

pub containers-IsDocker : IsDocker containers same address
containers-IsDocker = record {
  starts = λ n m. refl;
  stops = λ n m. refl;
  inserts = λ n rule m. refl;
  deletes = λ n rule m. refl;
  flushes = λ n chain m. refl;
  asks = λ address m. refl;
  inspects = λ n m. refl;
  finds = λ n m up. ground (arith, up);
}

abbrev pub three : Setup
three = record { nodes = three_nodes; raft_port = "7000" }

-- All containers are up, and no rule is installed.
abbrev pub quiet : Network
quiet = record { up = λ n. true; installed = λ n rule. 0 }

pub address_good : All (λ n. IsAddress (address n)) three_nodes
unfolding strip trim_both
address_good = ((refl, refl), ((refl, refl), ((refl, refl), tt)))

pub address_distinct : AreDistinct address
address_distinct a b e = append_cancel_left "10.0.0." a b e

abbrev pub alone : List String
alone = "node1" ∷ []

abbrev pub others : List String
others = "node2" ∷ "node3" ∷ []

abbrev pub first_two : List String
first_two = "node1" ∷ "node2" ∷ []

abbrev pub second : List String
second = "node2" ∷ []

abbrev pub without_second : List String
without_second = "node1" ∷ "node3" ∷ []

abbrev pub last : List String
last = "node3" ∷ []

pub three_Distinct : Distinct three_nodes
unfolding has
three_Distinct = (refl, (refl, (refl, tt)))

pub all-Up : Up quiet three_nodes
all-Up = (refl, (refl, (refl, tt)))
