-- ===== src/Store/Links.antt =====
-- The operations of infra/dashboard/js/store.js on the links between the nodes.
pub mod Keys
pub mod Silence
use atividade_consenso_raft.Base.{
  ℕ, ◌*◌, ◌-◌, String, string_eq, Option, none, some, Map, List, [], ◌∷◌, get?, insert, false, ltb,
}
use atividade_consenso_raft.Store.State.{Link, State, link_key}

-- A link that is not there is made, and one that is there keeps its `down`.
unfoldable pub mark_key : String → ℕ → State → State
mark_key k t s = elim (get? k s.links) [
  | none ↦ record s { links = insert k (record { last_resp = t; down = false }) s.links }
  | some l ↦ record s { links = insert k (record l { last_resp = t }) s.links }
]

unfoldable pub mark_resp_seen : String → String → ℕ → State → State
mark_resp_seen a b t s = mark_key (link_key a b) t s

-- Where `now` is before `last_resp` the silence is 0 here and negative there: `down` is false in both.
unfoldable pub silence : ℕ → ℕ → Link → Link
silence now limit l = record l { down = ltb limit (now - l.last_resp) }

unfoldable pub silence_all : ℕ → ℕ → Map String Link → Map String Link
unfolding silence
silence_all now limit [] = []
silence_all now limit ((k, l) ∷ links) = (k, silence now limit l) ∷ silence_all now limit links

unfoldable pub tick_silence : ℕ → State → State
unfolding silence_all
tick_silence now s = record s { links = silence_all now (2 * s.heartbeat_ms) s.links }
