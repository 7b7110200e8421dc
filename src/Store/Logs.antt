-- ===== src/Store/Logs.antt =====
-- The operation of infra/dashboard/js/store.js on the logs of the nodes.
pub mod Window
pub mod Commit
pub mod Replay
pub mod Order
use atividade_consenso_raft.Base.{
  or_default, ℕ, ◌-◌, String, string_eq, nat_eq, option_eq, ◌||◌, ◌==◌, Option, Map, List, [], ◌∷◌,
  get?, insert, length, drop, ltb, if◌then◌else◌,
}
use atividade_consenso_raft.Config.{log_window}
use atividade_consenso_raft.Store.State.{LogEntry, State}

-- `{ ...prev, ...entry, committed: prev.committed || entry.committed }`; an entry has every key.
unfoldable pub merge : LogEntry → LogEntry → LogEntry
merge prev entry = record entry { committed = prev.committed || entry.committed }

-- The first entry with the same index is replaced by the merged one; else the entry is pushed.
unfoldable pub upsert : LogEntry → List LogEntry → List LogEntry
unfolding merge
upsert entry [] = entry ∷ []
upsert entry (prev ∷ arr) =
    if prev.index == entry.index then merge prev entry ∷ arr else prev ∷ upsert entry arr

-- `arr.splice(0, arr.length - LOG_WINDOW)`
unfoldable pub trim : List LogEntry → List LogEntry
trim arr = if ltb log_window (length arr) then drop (length arr - log_window) arr else arr

unfoldable pub append_log : String → LogEntry → ℕ → State → State
unfolding upsert trim
append_log id entry now s = record s {
  logs = insert id (trim (upsert entry (or_default (get? id s.logs) []))) s.logs;
  recently_applied =
      if entry.committed
      then insert id (insert entry.index now (or_default (get? id s.recently_applied) []))
          s.recently_applied
      else s.recently_applied;
}
