-- ===== src/Store/Logs/Window.antt =====
-- What `appendLog` keeps: a bounded log with one entry for each index.
use atividade_consenso_raft.Base.{
  ℕ, ◌≤◌, ◌-◌, String, string_eq, nat_eq, option_eq, Option, List, [], ◌∷◌, ◌≡◌, refl, map, length,
  length-drop, arith, has, add, Distinct, Distinct-add, Distinct-drop, map-drop, ltb, Bool-cases,
  inl, inr, All, All-insert, All-get_or,
}
use atividade_consenso_raft.Config.{log_window}
use atividade_consenso_raft.Store.State.{LogEntry, State}
use atividade_consenso_raft.Store.Logs.{upsert, trim, append_log}

abbrev pub indices : List LogEntry → List (Option ℕ)
indices = map (λ e. e.index)

-- On the indices `upsert` is the insertion into a set.
pub indices-upsert :
    (e : LogEntry) (arr : List LogEntry) → indices (upsert e arr) ≡ add e.index (indices arr)
unfolding upsert add has
indices-upsert e [] = refl
indices-upsert e (p ∷ arr) = ground (arith, indices-upsert e arr)

pub record LogIsValid (arr : List LogEntry) : Type 0 where
  pub bounded : length arr ≤ log_window
  pub distinct : Distinct (indices arr)

length-trim : (arr : List LogEntry) → length (trim arr) ≤ log_window
unfolding trim
length-trim arr = ground (arith, length-drop (length arr - log_window) arr)

trim-Distinct : (arr : List LogEntry) → Distinct (indices arr) → Distinct (indices (trim arr))
unfolding trim
trim-Distinct arr d = elim (Bool-cases (ltb log_window (length arr))) [
  | inl over ↦
      rw (over, map-drop (λ (e : LogEntry). e.index) (length arr - log_window) arr)
        (Distinct-drop (length arr - log_window) (indices arr) d)
  | inr fits ↦ rw fits d
]

pub trim-upsert-LogIsValid :
    (e : LogEntry) (arr : List LogEntry) → LogIsValid arr → LogIsValid (trim (upsert e arr))
trim-upsert-LogIsValid e arr v = record {
  bounded = length-trim (upsert e arr);
  distinct =
      trim-Distinct (upsert e arr)
        (rw (indices-upsert e arr) (Distinct-add e.index (indices arr) v.distinct));
}

pub append_log-LogIsValid :
    (id : String) (e : LogEntry) (now : ℕ) (s : State)
    → All (λ p. LogIsValid p.1) s.logs
    → All (λ p. LogIsValid p.1) (append_log id e now s).logs
unfolding append_log
append_log-LogIsValid id e now s v =
    All-insert (λ _. LogIsValid) id _ s.logs v
      (trim-upsert-LogIsValid e _
        (All-get_or LogIsValid id s.logs [] v (record { bounded = omega arith; distinct = tt })))
