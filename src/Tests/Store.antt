-- ===== src/Tests/Store.antt =====
-- The theorems on the store at concrete inputs.
use atividade_consenso_raft.Base.{
  string_eq, nat_eq, option_eq, true, false, some, none, [], ◌∷◌, ◌≡◌, ◌⊎◌, refl, get?, arith,
}
use atividade_consenso_raft.Store.State.{State, LogEntry, Link}
use atividade_consenso_raft.Store.Links.{mark_resp_seen, tick_silence}
use atividade_consenso_raft.Store.Links.Silence.{link_of, tick_silence-mark_resp_seen}
use atividade_consenso_raft.Store.Logs.{append_log}
use atividade_consenso_raft.Store.Logs.Commit.{log_of, find, append_log-keeps_commit}
use atividade_consenso_raft.Store.Isolation.{
  toggle_pending_isolation, commit_pending, release_applied, clear_declared_partitions,
}
use atividade_consenso_raft.Store.Isolation.Spec.{
  marks, toggle, commit, release, clear, marks_refine,
}
use atividade_consenso_raft.Tests.Data.{two_entries-LogIsValid, node1_page, page_of, entry_at}

abbrev shown : State
shown = node1_page.state

tick_silence-mark_resp_seen_example :
    (l : Link) × (link_of "node1" "node2"
        (tick_silence 13000 (mark_resp_seen "node2" "node1" 5000 shown))
      ≡ some l)
    × (l.last_resp ≡ 5000)
    × (l.down ≡ false)
tick_silence-mark_resp_seen_example =
    tick_silence-mark_resp_seen "node2" "node1" 5000 13000 shown (omega arith)

find_example : find (some 1) (log_of "node1" shown) ≡ some (entry_at 1 true)
unfolding log_of get? find
find_example = refl

append_log-keeps_commit_example :
    let after = log_of "node1" (append_log "node1" (entry_at 1 false) 3000 shown) in
    (find (some 1) after ≡ none)
    ⊎ ((q : LogEntry) × (find (some 1) after ≡ some q) × (q.committed ≡ true))
append_log-keeps_commit_example =
    append_log-keeps_commit "node1" "node1" (entry_at 1 false) 3000 shown (some 1) (entry_at 1 true)
      two_entries-LogIsValid find_example refl

marks_refine_example :
    (marks (toggle_pending_isolation "node3" shown) ≡ toggle "node3" (marks shown))
    × (marks (commit_pending shown) ≡ commit (marks shown))
    × (marks (release_applied "node3" shown) ≡ release "node3" (marks shown))
    × (marks (clear_declared_partitions shown) ≡ clear (marks shown))
marks_refine_example = marks_refine "node3" shown

abbrev isolated : State
isolated = (page_of [] ("node2" ∷ "node3" ∷ []) [] []).state
