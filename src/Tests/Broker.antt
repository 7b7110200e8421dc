-- ===== src/Tests/Broker.antt =====
-- The theorems on the broker and on the page with it, with containers that do what docker documents.
use Prim.Native.String.{String}
use atividade_consenso_raft.Base.{
  concat, ◌<◌, ◌-◌, nat_eq, string_eq, list_eq, ◌==◌, ◌&&◌, ◌||◌, not, true, false, none, some, [],
  ◌∷◌, map, has, ltb, ◌≡◌, refl, All, arith, trim_end, if◌then◌else◌,
}
use atividade_consenso_raft.Controls.{click_apply, click_isolate, click_heal_all}
use atividade_consenso_raft.Store.Isolation.Spec.{Shows}
use atividade_consenso_raft.Broker.Docker.{Environment}
use atividade_consenso_raft.Broker.Network.{Network, IsDocker, stopped}
use atividade_consenso_raft.Broker.Cuts.{outgoing, incoming, drops}
use atividade_consenso_raft.Broker.Contract.{
  partition_body, node_body, partition-cuts, heal_node-frees,
}
use atividade_consenso_raft.Broker.Twice.{partition_twice-remains}
use atividade_consenso_raft.Broker.Refusals.{ask_all, do_post-refuses}
use atividade_consenso_raft.Broker.Agreement.{AllAgree, any_speaks, kill_leader-stops}
use atividade_consenso_raft.Broker.Leader.{url, http_get, find_leader}
use atividade_consenso_raft.Joint.Heal.{heal_all-heals}
use atividade_consenso_raft.Broker.{empty_body, do_post, route, kill_leader}
use atividade_consenso_raft.Event.{is_text}
use atividade_consenso_raft.Joint.{System, exchange}
use atividade_consenso_raft.Joint.Partition.{apply-cuts}
use atividade_consenso_raft.Joint.Release.{release-leaves_open}
use atividade_consenso_raft.Tests.Data.{three_nodes, page_of}
use atividade_consenso_raft.Tests.Containers.{
  address, containers, same, containers-IsDocker, three, quiet, address_good, address_distinct,
  alone, others, first_two, second, without_second, last, three_Distinct, all-Up,
}

partition-cuts_example :
    let (r, net) =
      do_post containers three "/partition" (some (partition_body alone others)) quiet in
    (r.status ≡ 200)
    × (ltb 0 (drops outgoing "7000" net "node2" (address "node1")) ≡ (
        ltb 0 (drops outgoing "7000" quiet "node2" (address "node1"))
        || (has "node2" alone && has (address "node1") (map address others))
        || (has "node2" others && has (address "node1") (map address alone))))
partition-cuts_example =
    partition-cuts containers same address containers-IsDocker three alone others quiet outgoing
      "node2" (address "node1") (refl, tt) (refl, (refl, tt)) (address_good.0, tt) address_good.1

abbrev node2 : String
node2 = "node2"

heal_node-frees_example :
    let (r, net) = do_post containers three "/heal-node" (some (node_body node2)) quiet in
    (r.status ≡ 200)
    × (drops outgoing "7000" net "node1" (address "node2") ≡ (
        if node2 == "node1"
        then 0
        else if has "node1" three_nodes && address "node2" == address "node2"
        then drops outgoing "7000" quiet "node1" (address "node2") - 1
        else drops outgoing "7000" quiet "node1" (address "node2")))
heal_node-frees_example =
    heal_node-frees containers same address containers-IsDocker three "node2" quiet outgoing "node1"
      (address "node2") refl address_good.1.0 all-Up three_Distinct

partition_twice-remains_example :
    let m1 = (do_post containers three "/partition" (some (partition_body alone others)) quiet).1 in
    let m2 =
      (do_post containers three "/partition" (some (partition_body second without_second)) m1).1 in
    let m3 = (do_post containers three "/heal-node" (some (node_body "node2")) m2).1 in
    (drops outgoing "7000" m3 "node2" (address "node3") ≡ 0)
    × (0 < drops outgoing "7000" m3 "node1" (address "node2"))
unfolding has
partition_twice-remains_example =
    partition_twice-remains containers same address containers-IsDocker three alone others second
      without_second quiet outgoing "node1" "node2" (address "node3")
      ((refl, tt), (address_good.0, tt)) ((refl, (refl, tt)), address_good.1)
      ((refl, tt), (address_good.1.0, tt))
      ((refl, (refl, tt)), (address_good.0, (address_good.1.1.0, tt)))
      ((refl, all-Up), (address_good.1.0, address_good)) three_Distinct refl refl refl refl

abbrev marked_system : System Network
marked_system = record { page = page_of first_two [] [] []; machine = quiet }

apply-cuts_example :
    let s' =
      exchange containers three 0
        (record marked_system { page = click_apply marked_system.page }) in
    let isolated = λ (n : String). has n s'.page.state.applied_isolations in
    Shows s'.page.state.node_ids s'.page.state.applied_isolations s'.page.state.declared_partitions
    × (ltb 0 (drops outgoing "7000" s'.machine "node3" (address "node2")) ≡ (
        (isolated "node3" && not (isolated "node2"))
        || (isolated "node2" && not (isolated "node3"))))
unfolding has
apply-cuts_example =
    apply-cuts containers same address containers-IsDocker three marked_system "node1" "node3"
      second [] outgoing "node3" "node2" refl refl refl refl (λ k p. refl) (refl, (refl, tt))
      (refl, tt) (address_good.0, (address_good.1.0, tt)) (address_good.1.1.0, tt) address_distinct
      refl refl

abbrev isolated_system : System Network
isolated_system = record { page = page_of [] first_two (first_two ∷ last ∷ []) []; machine = quiet }

release-leaves_open_example :
    let s' =
      exchange containers three 0
        (record isolated_system { page = click_isolate "node2" isolated_system.page }) in
    let state = s'.page.state in
    Shows state.node_ids state.applied_isolations state.declared_partitions
    × (has "node1" state.applied_isolations ≡ true)
    × (has "node2" state.applied_isolations ≡ false)
    × (drops outgoing "7000" s'.machine "node1" (address "node2") ≡ 0)
    × (drops outgoing "7000" s'.machine "node2" (address "node1") ≡ 0)
unfolding has
release-leaves_open_example =
    release-leaves_open containers same address containers-IsDocker three isolated_system outgoing
      "node1" "node2" refl refl refl refl refl refl address_good.1.0 all-Up three_Distinct

named_three : All (λ n. is_text (some n) ≡ true) three_nodes
named_three = (refl, (refl, (refl, tt)))

do_post-refuses_example :
    let (r, net) = do_post containers three "/kill-leader" (some empty_body) quiet in
    (net ≡ (if r.status == 503 then ask_all containers three_nodes quiet else quiet))
    × ((r.status == 503 && any_speaks containers three_nodes quiet) ≡ false)
    × (net ≡ quiet)
unfolding do_post route trim_end kill_leader find_leader http_get
do_post-refuses_example =
    do_post-refuses containers three named_three same address containers-IsDocker "/kill-leader"
      (some empty_body) quiet refl

-- Node 2 says that it leads, the others do not answer.
abbrev led : Environment Network
led = record containers {
  get = λ address net. (
    if address == url node2 "/status"
        then some (record { role = some "leader"; leader_id = none })
        else none,
    net,
  );
}

led-IsDocker : IsDocker led same address
led-IsDocker = record {
  starts = λ n m. refl;
  stops = λ n m. refl;
  inserts = λ n rule m. refl;
  deletes = λ n rule m. refl;
  flushes = λ n chain m. refl;
  asks = λ address m. refl;
  inspects = λ n m. refl;
  finds = λ n m up. ground (arith, up);
}

led_agree : AllAgree led "node2" three_nodes quiet
unfolding http_get concat
led_agree = (
  record { leads = λ e. cc; names = λ e. cc },
  (
    record { leads = λ e. refl; names = λ e. cc },
    (record { leads = λ e. cc; names = λ e. cc }, tt),
  ),
)

kill_leader-stops_example :
    (do_post led three "/kill-leader" (some empty_body) quiet).1 ≡ stopped "node2" quiet
unfolding http_get concat
kill_leader-stops_example =
    kill_leader-stops led same address led-IsDocker three "node2" empty_body quiet refl led_agree
      refl

heal_all-heals_example :
    let s' =
      exchange containers three 0
        (record isolated_system { page = click_heal_all isolated_system.page }) in
    (s'.page.state.pending_isolations ≡ [])
    × (s'.page.state.applied_isolations ≡ [])
    × (s'.page.state.declared_partitions ≡ [])
    × (s'.machine.up "node2" ≡ true)
    × (drops incoming "7000" s'.machine "node2" (address "node1") ≡ 0)
unfolding has
heal_all-heals_example =
    heal_all-heals containers same address containers-IsDocker three isolated_system incoming
      "node2" (address "node1") refl refl
