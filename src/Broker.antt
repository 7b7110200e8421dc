-- ===== src/Broker.antt =====
-- infra/broker/broker.py: what the broker does when a button of the dashboard asks for it.
pub mod Docker
pub mod Leader
pub mod Network
pub mod Cuts
pub mod Refines
pub mod Heals
pub mod Contract
pub mod Twice
pub mod Refusals
pub mod Agreement
use atividade_consenso_raft.Base.{
  ℕ, nat_eq, string_eq, ◌==◌, not, ◌||◌, String, Option, none, some, List, [], ◌∷◌, Map, insert,
  has, select, concat, or_default, same_char, trim_end, if◌then◌else◌,
}
use atividade_consenso_raft.Event.{is_text}
use atividade_consenso_raft.Broker.Docker.{
  Environment, Setup, Finished, docker, node_ip, carry_out, iptables, output_rule, input_rule,
  partition_drop, partition_clear,
}
use atividade_consenso_raft.Broker.Leader.{http_post, find_leader, url}

-- The fields of the JSON of a request, an object whose fields have the types that the page gives them;
-- a field that is missing is none.
pub record Body : Type 0 where
  pub node : Option String
  pub isolate : Option (List String)
  pub majority : Option (List String)
  pub key : Option String
  pub value : Option String

abbrev pub empty_body : Body
empty_body = record { node = none; isolate = none; majority = none; key = none; value = none }

pub data Content : Type 0 where
  error : String → Content
  leader_stopped node_stopped : String → String → String → Content
  results : Map String String → Content
  healed : String → Content
  forwarded : String → ℕ → String → Content

pub record Reply : Type 0 where
  pub status : ℕ
  pub content : Content

abbrev pub reply : ℕ → Content → Reply
reply status content = record { status = status; content = content }

abbrev pub link_name : String → String → String
unfolding concat
link_name iso maj = concat (iso ∷ "<->" ∷ maj ∷ [])

module _ {M : Type 0} (env : Environment M) (setup : Setup) where
  unfoldable pub stop : (String → String → String → Content) → String → M → Reply × M
  unfolding docker
  stop content node m =
      let (f, m') = docker env ("stop" ∷ node ∷ []) m in
      (
        record {
          status = if f.returncode == 0 then 200 else 500;
          content = content node f.stdout f.stderr;
        },
        m',
      )

  unfoldable pub kill_leader : M → Reply × M
  unfolding stop find_leader
  kill_leader m =
      let (leader, m') = find_leader env setup.nodes m in
      if not (is_text leader)
      then (reply 503 (error "no leader found"), m')
      else stop leader_stopped (or_default leader "") m'

  unfoldable pub heal_all : List String → Map String String → M → Map String String × M
  unfolding partition_clear insert
  heal_all [] done m = (done, m)
  heal_all (node ∷ nodes) done m =
      heal_all nodes (insert node "healed" done)
        (partition_clear env node (carry_out env ("start" ∷ node ∷ []) m))

  unfoldable pub heal : M → Reply × M
  unfolding heal_all
  heal m = let (done, m') = heal_all setup.nodes [] m in (reply 200 (results done), m')

  -- Takes one copy of each of the two rules that name this node away from the others.
  unfoldable pub release_all : String → String → List String → M → M
  release_all node ip [] m = m
  release_all node ip (other ∷ others) m = release_all node ip others (
      if other == node || ip == ""
      then m
      else carry_out env (iptables other "-D" (input_rule setup.raft_port ip))
          (carry_out env (iptables other "-D" (output_rule setup.raft_port ip)) m))

  unfoldable pub heal_node : String → M → M
  unfolding partition_clear node_ip release_all
  heal_node node m =
      let m' = partition_clear env node (carry_out env ("start" ∷ node ∷ []) m) in
      let (ip, m'') = node_ip env node m' in release_all node ip setup.nodes m''

  unfoldable pub separate : String → String → Map String String × M → Map String String × M
  unfolding node_ip partition_drop insert
  separate iso maj (done, m) =
      let (iso_ip, m') = node_ip env iso m in
      let (maj_ip, m'') = node_ip env maj m' in
      if iso_ip == "" || maj_ip == ""
      then (insert (link_name iso maj) "ip lookup failed" done, m'')
      else (
        insert (link_name iso maj) (concat ("blocked on port " ∷ setup.raft_port ∷ [])) done,
        partition_drop env setup.raft_port maj iso_ip
            (partition_drop env setup.raft_port iso maj_ip m''),
      )

  unfoldable pub separate_from :
      String → List String → Map String String × M → Map String String × M
  unfolding separate
  separate_from iso [] r = r
  separate_from iso (maj ∷ majority) r = separate_from iso majority (separate iso maj r)

  unfoldable pub separate_all :
      List String → List String → Map String String × M → Map String String × M
  unfolding separate_from
  separate_all [] majority r = r
  separate_all (iso ∷ isolate) majority r =
      separate_all isolate majority (separate_from iso majority r)

  unfoldable pub partition : Body → M → Reply × M
  unfolding separate_all has
  partition body m =
      let isolate : List String = or_default body.isolate [] in
      let majority : List String =
        or_default body.majority (select (λ n. not (has n isolate)) setup.nodes) in
      let (done, m') = separate_all isolate majority ([], m) in (reply 200 (results done), m')

  unfoldable pub forward : Option String → String → String → M → Reply × M
  unfolding http_post
  forward leader key value m =
      if not (is_text leader)
      then (reply 503 (error "no leader"), m)
      else let ((code, text), m') = http_post env (url (or_default leader "") "/put") key value m in
        (reply 200 (forwarded (or_default leader "") code text), m')

  unfoldable pub put : Body → M → Reply × M
  unfolding find_leader forward
  put body m =
      if not (is_text body.key)
      then (reply 400 (error "key required"), m)
      else let (leader, m') = find_leader env setup.nodes m in
        forward leader (or_default body.key "") (or_default body.value "") m'

  unfoldable pub with_named : Body → (String → M → Reply × M) → M → Reply × M
  with_named body f m =
      if not (is_text body.node)
      then (reply 400 (error "node required"), m)
      else f (or_default body.node "") m

  unfoldable pub route : String → Body → M → Reply × M
  unfolding kill_leader stop heal heal_node partition put with_named
  route path body m =
      if path == "/kill-leader"
      then kill_leader m
      else if path == "/kill-node"
      then with_named body (stop node_stopped) m
      else if path == "/heal"
      then heal m
      else if path == "/heal-node"
      then with_named body (λ node m. (reply 200 (healed node), heal_node node m)) m
      else if path == "/partition"
      then partition body m
      else if path == "/put"
      then put body m
      else (reply 404 (error (concat ("unknown path " ∷ path ∷ []))), m)

  -- `none` is a body that is no JSON.
  unfoldable pub do_post : String → Option Body → M → Reply × M
  unfolding route
  do_post path none m = (reply 400 (error "invalid JSON"), m)
  do_post path (some body) m = route (trim_end (λ c. same_char c "/") path) body m
