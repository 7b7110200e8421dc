-- ===== src/Broker/Docker.antt =====
-- infra/broker/broker.py, the commands that it runs: docker, and iptables in a container. Docker and
-- the HTTP servers of the nodes are not part of the repository: they are the Environment, which acts
-- on a machine of any type.
use Prim.Native.Char.{Char, code}
use atividade_consenso_raft.Base.{
  ℕ, nat_eq, ◌==◌, ◌||◌, ◌&&◌, String, Bool, Option, none, some, List, [], ◌∷◌, leb, has, trim_both,
  if◌then◌else◌,
}

-- What `subprocess.run` gives of a command that ended in time.
pub record Finished : Type 0 where
  pub returncode : ℕ
  pub stdout : String
  pub stderr : String

-- The fields that the broker reads of a node's `/status`.
pub record Status : Type 0 where
  pub role : Option String
  pub leader_id : Option String

-- An answer, an answer with the status of an error, or none.
pub data Posted : Type 0 where
  answered : ℕ → String → Posted
  http_error : ℕ → String → Posted
  failed : String → Posted

-- `run` is `subprocess.run`, none if the time ran out; `get` is a GET, none if it failed or brought no
-- JSON; `post` sends a key and a value.
pub record Environment (M : Type 0) : Type 0 where
  pub run : List String → M → Option Finished × M
  pub get : String → M → Option Status × M
  pub post : String → String → String → M → Posted × M

-- RAFT_NODES, split at the commas, and RAFT_PORT.
pub record Setup : Type 0 where
  pub nodes : List String
  pub raft_port : String

-- `str.strip` and `str.isspace`
unfoldable pub is_space : Char → Bool
unfolding has
is_space c =
    (leb 9 (code c) && leb (code c) 13)
    || (leb 28 (code c) && leb (code c) 32)
    || (leb 8192 (code c) && leb (code c) 8202)
    || has (code c) (133 ∷ 160 ∷ 5760 ∷ 8232 ∷ 8233 ∷ 8239 ∷ 8287 ∷ 12288 ∷ [])

unfoldable pub strip : String → String
unfolding is_space trim_both
strip s = trim_both is_space s

abbrev pub outcome : Option Finished → Finished
outcome none = record { returncode = 1; stdout = ""; stderr = "timeout" }
outcome (some f) = record f { stdout = strip f.stdout; stderr = strip f.stderr }

abbrev pub inspect : String → List String
inspect node =
    "docker" ∷ "inspect" ∷ "-f" ∷ "{{range .NetworkSettings.Networks}}{{.IPAddress}}{{end}}" ∷ node
    ∷ []

-- The two rules that drop what goes to a peer's raft port and what comes from it.
abbrev pub output_rule : String → String → List String
output_rule port peer_ip =
    "OUTPUT" ∷ "-d" ∷ peer_ip ∷ "-p" ∷ "tcp" ∷ "--dport" ∷ port ∷ "-j" ∷ "DROP" ∷ []

abbrev pub input_rule : String → String → List String
input_rule port peer_ip =
    "INPUT" ∷ "-s" ∷ peer_ip ∷ "-p" ∷ "tcp" ∷ "--sport" ∷ port ∷ "-j" ∷ "DROP" ∷ []

abbrev pub iptables : String → String → List String → List String
iptables node operation rule = "exec" ∷ node ∷ "iptables" ∷ operation ∷ rule

module _ {M : Type 0} (env : Environment M) where
  unfoldable pub docker : List String → M → Finished × M
  docker args m = let (out, m') = env.run ("docker" ∷ args) m in (outcome out, m')

  unfoldable pub node_ip : String → M → String × M
  node_ip node m =
      let (out, m') = env.run (inspect node) m in
      let f : Finished = outcome out in (if f.returncode == 0 then strip f.stdout else "", m')

  -- A command whose outcome is not looked at.
  abbrev pub carry_out : List String → M → M
  carry_out args m = (env.run ("docker" ∷ args) m).1

  unfoldable pub partition_drop : String → String → String → M → M
  partition_drop port node peer_ip m =
      carry_out (iptables node "-I" (input_rule port peer_ip))
        (carry_out (iptables node "-I" (output_rule port peer_ip)) m)

  unfoldable pub partition_clear : String → M → M
  partition_clear node m =
      carry_out (iptables node "-F" ("OUTPUT" ∷ []))
        (carry_out (iptables node "-F" ("INPUT" ∷ [])) m)
