-- ===== src/Views/LogPanel/Applied.antt =====
-- How the matrix shows an entry that a node has applied.
use atividade_consenso_raft.Base.{
  lookup_laws, ℕ, ◌-◌, ◌≤◌, String, string_eq, nat_eq, option_eq, ◌==◌, true, false, Option, none,
  some, List, [], ◌∷◌, ◌++◌, get?, ltb, or_default, length, length-append, drop, drop-append,
  map-drop, has-drop, has, Distinct, ◌≡◌, refl, ap, sym, ◌∙◌, arith, beq_refl, beq_sound,
  Bool-cases, inl, inr, subst,
}
use atividade_consenso_raft.Config.{log_window, highlight_apply_ms}
use atividade_consenso_raft.Event.{Event, prop_key}
use atividade_consenso_raft.Store.State.{State, LogEntry}
use atividade_consenso_raft.Store.Logs.{upsert, trim, append_log}
use atividade_consenso_raft.Store.Logs.Window.{indices, LogIsValid, trim-upsert-LogIsValid}
use atividade_consenso_raft.Store.Logs.Commit.{
  log_of, log_of-append_log, find, find_absent, length-upsert_known, find-upsert, stored, trim_fits,
}
use atividade_consenso_raft.Store.Logs.Replay.{newest, upsert_fresh, trim-eq-newest}
use atividade_consenso_raft.World.{World}
use atividade_consenso_raft.Handlers.{on_apply, entry_of}
use atividade_consenso_raft.Views.LogPanel.{cell_entry, cell, shown, is_recent, is_different}

absent_entry :
    (idx : ℕ) (arr : List LogEntry)
    → has (some idx) (indices arr) ≡ false
    → cell_entry idx arr ≡ none
unfolding cell_entry has
absent_entry idx [] h = refl
absent_entry idx (e ∷ arr) h = rw (absent_entry idx arr (ground arith)) (ground arith)

-- Where no index stands twice the last entry of an index is the first one.
cell_entry-eq-find :
    (idx : ℕ) (arr : List LogEntry)
    → Distinct (indices arr)
    → cell_entry idx arr ≡ find (some idx) arr
unfolding cell_entry find
cell_entry-eq-find idx [] d = refl
cell_entry-eq-find idx (e ∷ arr) d = elim (Bool-cases (e.index == some idx)) [
  | inl hit ↦
      rw (absent_entry idx arr (subst (λ i. has i (indices arr) ≡ false) (beq_sound hit) d.0), hit)
  | inr miss ↦ rw (miss, cell_entry-eq-find idx arr d.1) (ground arith)
]

find_last :
    (e : LogEntry) (arr : List LogEntry)
    → has e.index (indices arr) ≡ false
    → find e.index (arr ++ e ∷ []) ≡ some e
unfolding find has
find_last e [] h = rw (beq_refl e.index)
find_last e (p ∷ arr) h = ground (arith, find_last e arr)

-- The entry that has just come is in the window, whatever was there.
find-trim-upsert :
    (e : LogEntry) (arr : List LogEntry)
    → LogIsValid arr
    → find e.index (trim (upsert e arr)) ≡ some (stored (find e.index arr) e)
find-trim-upsert e arr v = elim (Bool-cases (has e.index (indices arr))) [
  | inl known ↦ rw (
    trim_fits (upsert e arr) (omega (arith, length-upsert_known e arr known, v.bounded)),
    find-upsert,
    beq_refl e.index,
  )
  | inr fresh ↦
      rw (upsert_fresh e arr fresh, trim-eq-newest, find_absent e.index arr fresh) (pushed fresh)
]
  where
    pushed : has e.index (indices arr) ≡ false → find e.index (newest (arr ++ e ∷ [])) ≡ some e
    pushed fresh =
        let n = length (arr ++ e ∷ []) - log_window in
        rw (drop-append n arr (e ∷ []) (omega (arith, length-append arr (e ∷ []), v.bounded)))
          (find_last e (drop n arr) (rw map-drop (has-drop n e.index (indices arr) fresh)))

cell_entry-append_log :
    (id : String) (e : LogEntry) (t : ℕ) (s : State) (idx : ℕ)
    → LogIsValid (log_of id s)
    → e.index ≡ some idx
    → cell_entry idx (log_of id (append_log id e t s))
      ≡ some (stored (find e.index (log_of id s)) e)
cell_entry-append_log id e t s idx v at =
    rw (log_of-append_log, beq_refl id)
      (cell_entry-eq-find idx log' (trim-upsert-LogIsValid e (log_of id s) v).distinct
        ∙ ap (λ i. find i log') (sym at)
        ∙ find-trim-upsert e (log_of id s) v)
  where
    log' : List LogEntry
    log' = trim (upsert e (log_of id s))

applied_at :
    (id : String) (e : LogEntry) (t : ℕ) (s : State)
    → e.committed ≡ true
    → get? e.index (or_default (get? id (append_log id e t s).recently_applied) []) ≡ some t
unfolding append_log
applied_at id e t s done = rw done (simp lookup_laws)

stored-committed :
    (o : Option LogEntry) (e : LogEntry) → e.committed ≡ true → (stored o e).committed ≡ true
stored-committed none e h = h
stored-committed (some p) e h = ground arith

stored-value : (o : Option LogEntry) (e : LogEntry) → (stored o e).value ≡ e.value
stored-value none e = refl
stored-value (some p) e = refl

stored-key : (o : Option LogEntry) (e : LogEntry) → (stored o e).key ≡ e.key
stored-key none e = refl
stored-key (some p) e = refl

cell-shown :
    (s : State) (now idx : ℕ) (ref : Option (Option ℕ)) (id : String) (q : LogEntry)
    → cell_entry idx (or_default (get? id s.logs) []) ≡ some q
    → q.committed ≡ true
    → cell s now idx ref id
      ≡ shown q true
          (is_different ref q.term)
          (is_recent (get? (some idx) (or_default (get? id s.recently_applied) [])) now)
unfolding cell
cell-shown s now idx ref id q there done = rw (there, cell, done)

-- When a node, whose log is no longer than the window and has no index twice, says that it has
-- applied the entry of an index, its cell of that index shows the key and the value of the event
-- as committed, and as new for the next 1500 ms and no longer, if the clock did not stand at 0.
pub on_apply-cell :
    (e : Event) (w : World) (idx now : ℕ) (ref : Option (Option ℕ))
    → LogIsValid (log_of (prop_key e.node) w.state)
    → e.index ≡ some idx
    → 1 ≤ w.date_now
    → (q : LogEntry) × (cell (on_apply e w).state now idx ref (prop_key e.node)
        ≡ shown q true (is_different ref q.term) (ltb (now - w.date_now) highlight_apply_ms))
      × (q.key ≡ e.key)
      × (q.value ≡ e.value)
unfolding on_apply log_of
on_apply-cell e w idx now ref v at late = (
  q,
  cell-shown s' now idx ref id q there (stored-committed old entry refl) ∙ rw recent (ground arith),
  stored-key old entry,
  stored-value old entry,
)
  where
    id : String
    id = prop_key e.node

    entry : LogEntry
    entry = entry_of e true

    old : Option LogEntry
    old = find e.index (log_of id w.state)

    q : LogEntry
    q = stored old entry

    s' : State
    s' = append_log id entry w.date_now w.state

    there : cell_entry idx (or_default (get? id s'.logs) []) ≡ some q
    there = cell_entry-append_log id entry w.date_now w.state idx v at

    recent : get? (some idx) (or_default (get? id s'.recently_applied) []) ≡ some w.date_now
    recent =
        subst (λ i. get? i (or_default (get? id s'.recently_applied) []) ≡ some w.date_now) at
          (applied_at id entry w.date_now w.state refl)
