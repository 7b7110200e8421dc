-- ===== src/Views/Filters.antt =====
-- infra/dashboard/js/filters.js: which events the textual stream keeps.
pub mod Laws
use atividade_consenso_raft.Base.{
  String, string_eq, nat_eq, option_eq, ◌==◌, Bool, true, false, not, ◌&&◌, some, none, Option,
  List, [], ◌∷◌, Map, get?, every, if◌then◌else◌,
}
use atividade_consenso_raft.Event.{Event, or_zero}

unfoldable pub hide_heartbeats : Event → Bool
hide_heartbeats evt =
    if evt.type == "rpc_send" && (evt.rpc == some "AppendEntries" && or_zero evt.entries == 0)
    then false
    else if evt.type == "rpc_resp"
        && (evt.rpc == some "AppendEntriesResp" && or_zero evt.entries == 0)
    then false
    else true

unfoldable pub hide_state_snapshots : Event → Bool
hide_state_snapshots evt = not (evt.type == "state")

unfoldable pub hide_replication : Event → Bool
hide_replication evt = not (evt.type == "replication")

abbrev pub filters : Map String (Event → Bool)
filters =
    ("hideHeartbeats", hide_heartbeats)
    ∷ ("hideStateSnapshots", hide_state_snapshots)
    ∷ ("hideReplication", hide_replication)
    ∷ []

-- `active.map(name => filters[name]).filter(Boolean)`
unfoldable pub chosen : List String → List (Event → Bool)
unfolding get?
chosen [] = []
chosen (name ∷ active) = elim (get? name filters) [
  | none ↦ chosen active
  | some f ↦ f ∷ chosen active
]

unfoldable pub compose_filters : List String → Event → Bool
unfolding chosen
compose_filters active evt = every (λ f. f evt) (chosen active)
