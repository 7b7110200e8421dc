-- ===== src/Sse/Replay.antt =====
-- The fetched log of a node, and what the page shows of that node after it.
use atividade_consenso_raft.Base.{
  ◌≤◌, String, string_eq, nat_eq, option_eq, true, false, some, List, [], ◌∷◌, ◌++◌, ◌≡◌, refl, ap,
  sym, ◌∙◌, All, map, length, Distinct, beq_refl, All-drop, subst, map-append, length-map,
}
use atividade_consenso_raft.Config.{log_window}
use atividade_consenso_raft.Event.{is_text, is_positive}
use atividade_consenso_raft.Store.State.{LogEntry}
use atividade_consenso_raft.Store.Logs.{upsert, trim}
use atividade_consenso_raft.Store.Logs.Window.{indices}
use atividade_consenso_raft.Store.Logs.Commit.{log_of, log_of-append_log}
use atividade_consenso_raft.Store.Logs.Replay.{
  newest, pushes, pushes_fresh, pushes_known, pushes_forget, IsKnown,
}
use atividade_consenso_raft.World.{World}
use atividade_consenso_raft.Handlers.{on_log_entry}
use atividade_consenso_raft.Main.{deliver}
use atividade_consenso_raft.Main.Routing.{deliver-eq-handle}
use atividade_consenso_raft.Sse.{SnapshotEntry, snapshot_event, deliver_entries, fetch_snapshot}

-- The log entry that an element of the fetched log stands for: in flight, until an apply comes.
abbrev pub in_flight : SnapshotEntry → LogEntry
in_flight e = record {
  index = e.index;
  term = e.term;
  command = e.command;
  key = e.key;
  value = e.value;
  committed = false;
}

deliver-snapshot_event :
    (id : String) (e : SnapshotEntry) (w : World)
    → is_text (some id) ≡ true
    → is_positive e.index ≡ true
    → log_of id (deliver (snapshot_event id e) w).state
      ≡ trim (upsert (in_flight e) (log_of id w.state))
unfolding snapshot_event on_log_entry
deliver-snapshot_event id e w named numbered =
    ap (λ w'. log_of id w'.state) (deliver-eq-handle (snapshot_event id e) w)
    ∙ rw (named, numbered)
        (log_of-append_log id id (in_flight e) w.date_now w.state ∙ rw (beq_refl id))

log_of-deliver_entries :
    (id : String) (entries : List SnapshotEntry) (w : World)
    → is_text (some id) ≡ true
    → All (λ e. is_positive e.index ≡ true) entries
    → log_of id (deliver_entries id entries w).state
      ≡ pushes (map in_flight entries) (log_of id w.state)
unfolding deliver_entries pushes
log_of-deliver_entries id [] w named numbered = refl
log_of-deliver_entries id (e ∷ entries) w named (n, ns) =
    log_of-deliver_entries id entries (deliver (snapshot_event id e) w) named ns
    ∙ ap (pushes (map in_flight entries)) (deliver-snapshot_event id e w named n)

-- A fetched log of a named node, with positive indices that differ from each other and from those
-- of the log on the page: the page then has the newest entries, as many as the window holds, of
-- what it had, if that was no longer than the window, and of what came, in the order of arrival.
pub fetch_snapshot_fresh :
    (id : String) (entries : List SnapshotEntry) (w : World)
    → is_text (some id) ≡ true
    → All (λ e. is_positive e.index ≡ true) entries
    → length (log_of id w.state) ≤ log_window
    → Distinct (indices (log_of id w.state ++ map in_flight entries))
    → log_of id (fetch_snapshot id (some entries) w).state
      ≡ newest (log_of id w.state ++ map in_flight entries)
unfolding fetch_snapshot
fetch_snapshot_fresh id entries w named numbered room apart =
    log_of-deliver_entries id entries w named numbered
    ∙ pushes_fresh (map in_flight entries) (log_of id w.state) room apart

-- A fetched log whose entries the page knows all, with the same contents and with positive
-- indices, leaves the log of the named node as it is, if that is no longer than the window: no
-- entry moves, and none that is committed falls back.
pub fetch_snapshot_known :
    (id : String) (entries : List SnapshotEntry) (w : World)
    → is_text (some id) ≡ true
    → All (λ e. is_positive e.index ≡ true) entries
    → length (log_of id w.state) ≤ log_window
    → All (IsKnown (log_of id w.state)) (map in_flight entries)
    → log_of id (fetch_snapshot id (some entries) w).state ≡ log_of id w.state
unfolding fetch_snapshot
fetch_snapshot_known id entries w named numbered room known =
    log_of-deliver_entries id entries w named numbered
    ∙ pushes_known (map in_flight entries) (log_of id w.state) room known

in_flight-indices :
    (entries : List SnapshotEntry)
    → indices (map in_flight entries) ≡ map (λ (e : SnapshotEntry). e.index) entries
in_flight-indices [] = refl
in_flight-indices (e ∷ entries) = ap (e.index ∷◌) (in_flight-indices entries)

-- The fetched log of a named node has positive indices, all different. If its last entries are
-- those that the page has of the node, no more than the window holds, and at least as many
-- entries as the window holds come before them, all that the page has of the node afterwards is
-- the newest of what was fetched, and nothing of it is committed.
pub fetch_snapshot_forgets :
    (id : String) (older shown : List SnapshotEntry) (w : World)
    → is_text (some id) ≡ true
    → All (λ e. is_positive e.index ≡ true) (older ++ shown)
    → log_window ≤ length older
    → length (log_of id w.state) ≤ log_window
    → indices (log_of id w.state) ≡ map (λ (e : SnapshotEntry). e.index) shown
    → Distinct (map (λ (e : SnapshotEntry). e.index) (older ++ shown))
    → let after = log_of id (fetch_snapshot id (some (older ++ shown)) w).state in
      (after ≡ newest (map in_flight (older ++ shown))) × All (λ e. e.committed ≡ false) after
unfolding fetch_snapshot
fetch_snapshot_forgets id older shown w named numbered many few same apart = (
  end,
  subst (All (λ e. e.committed ≡ false)) (sym end)
      (All-drop _ _ (map in_flight (older ++ shown)) (none_committed (older ++ shown))),
)
  where
    none_committed : (es : List SnapshotEntry) → All (λ e. e.committed ≡ false) (map in_flight es)
    none_committed [] = tt
    none_committed (e ∷ es) = (refl, none_committed es)

    run : List LogEntry
    run = map in_flight older ++ map in_flight shown

    ids : Distinct (indices run)
    ids = rw (← map-append in_flight older shown, in_flight-indices) apart

    end :
        log_of id (deliver_entries id (older ++ shown) w).state
        ≡ newest (map in_flight (older ++ shown))
    end =
        log_of-deliver_entries id (older ++ shown) w named numbered
        ∙ rw (map-append in_flight older shown) (
            pushes_forget (map in_flight older) (map in_flight shown) (log_of id w.state)
              (rw (length-map in_flight older) many) few (rw in_flight-indices same) ids)
