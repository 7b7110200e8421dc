-- ===== src/Broker/Leader.antt =====
-- infra/broker/broker.py, the requests that it sends to the nodes: http_get, http_post and
-- find_leader.
use atividade_consenso_raft.Base.{
  ℕ, string_eq, option_eq, ◌==◌, String, Option, none, some, List, [], ◌∷◌, concat, if◌then◌else◌,
}
use atividade_consenso_raft.Event.{is_text}
use atividade_consenso_raft.Broker.Docker.{
  Environment, Status, Posted, answered, http_error, failed,
}

-- A failure brings an object with neither of the fields.
abbrev pub status_of : Option Status → Status
status_of none = record { role = none; leader_id = none }
status_of (some info) = info

abbrev pub code_and_text : Posted → ℕ × String
code_and_text (answered status text) = (status, text)
code_and_text (http_error code text) = (code, text)
code_and_text (failed text) = (0, text)

abbrev pub url : String → String → String
unfolding concat
url node path = concat ("http://" ∷ node ∷ ":9000" ∷ path ∷ [])

module _ {M : Type 0} (env : Environment M) where
  unfoldable pub http_get : String → M → Status × M
  http_get address m = let (info, m') = env.get address m in (status_of info, m')

  unfoldable pub http_post : String → String → String → M → (ℕ × String) × M
  http_post address key value m =
      let (posted, m') = env.post address key value m in (code_and_text posted, m')

  -- The first node that says that it leads or that names a leader decides.
  unfoldable pub find_leader : List String → M → Option String × M
  unfolding http_get
  find_leader [] m = (none, m)
  find_leader (node ∷ nodes) m =
      let (info, m') = http_get (url node "/status") m in
      let others = find_leader nodes m' in
      if info.role == some "leader"
      then (some node, m')
      else if is_text info.leader_id
      then (info.leader_id, m')
      else others
