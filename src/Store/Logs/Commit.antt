-- ===== src/Store/Logs/Commit.antt =====
-- What `appendLog` does to the entry of an index: an applied entry never turns into one in flight.
use atividade_consenso_raft.Base.{
  ℕ, zero, suc, ◌≤◌, ◌-◌, String, string_eq, nat_eq, option_eq, Option, some, none, List, [], ◌∷◌,
  ◌≡◌, refl, subst, sym, length, drop, arith, has, Distinct, ltb, true, false, ◌||◌, Bool-cases,
  inl, inr, ◌⊎◌, get?, get?-insert, Equality, ◌==◌, if◌then◌else◌, or_default, beq_sound, map-drop,
  has-drop, Distinct-add,
}
use atividade_consenso_raft.Config.{log_window}
use atividade_consenso_raft.Store.State.{LogEntry, State}
use atividade_consenso_raft.Store.Logs.{merge, upsert, trim, append_log}
use atividade_consenso_raft.Store.Logs.Window.{indices, LogIsValid, indices-upsert}

-- The log of a node.
unfoldable pub log_of : String → State → List LogEntry
log_of id s = or_default (get? id s.logs) []

-- The entry of an index.
unfoldable pub find : Option ℕ → List LogEntry → Option LogEntry
find i [] = none
find i (e ∷ arr) = if e.index == i then some e else find i arr

-- What `upsert` stores at the index of the entry.
abbrev pub stored : Option LogEntry → LogEntry → LogEntry
stored none e = e
stored (some prev) e = record e { committed = prev.committed || e.committed }

pub find-upsert :
    (i : Option ℕ) (e : LogEntry) (arr : List LogEntry)
    → find i (upsert e arr) ≡ (if e.index == i then some (stored (find i arr) e) else find i arr)
unfolding find upsert merge
find-upsert i e [] = refl
find-upsert i e (p ∷ arr) =
    let o : Equality (Option ℕ) = option_eq in
    ground (
      arith,
      find-upsert i e arr,
      o.test_iff p.index e.index,
      o.test_iff e.index i,
      o.test_iff p.index i,
    )

pub find_absent :
    (i : Option ℕ) (arr : List LogEntry) → has i (indices arr) ≡ false → find i arr ≡ none
unfolding find has
find_absent i [] h = refl
find_absent i (p ∷ arr) h = ground (arith, find_absent i arr)

-- An entry that a shorter log shows is the same in the longer one.
find-drop :
    (n : ℕ) (i : Option ℕ) (arr : List LogEntry)
    → Distinct (indices arr)
    → (find i (drop n arr) ≡ none) ⊎ (find i (drop n arr) ≡ find i arr)
unfolding find
find-drop zero i arr d = inr refl
find-drop (suc n) i [] d = inr refl
find-drop (suc n) i (p ∷ arr) d = elim (Bool-cases (p.index == i)) [
  | inl hit ↦ inl (
      find_absent i (drop n arr) (
        rw map-drop (
          has-drop n i (indices arr)
            (subst (λ k. has k (indices arr) ≡ false) (beq_sound hit) d.0))))
  | inr miss ↦ rw miss (find-drop n i arr d.1)
]

pub length-upsert_known :
    (e : LogEntry) (arr : List LogEntry)
    → has e.index (indices arr) ≡ true
    → length (upsert e arr) ≡ length arr
unfolding upsert has
length-upsert_known e [] h = absurd (ground arith)
length-upsert_known e (p ∷ arr) h = ground (arith, length-upsert_known e arr)

-- Where nothing is evicted the window shows what was stored.
pub trim_fits : (arr : List LogEntry) → length arr ≤ log_window → trim arr ≡ arr
unfolding trim
trim_fits arr h = ground arith

trim_some :
    (i : Option ℕ) (arr : List LogEntry)
    → Distinct (indices arr)
    → (find i (trim arr) ≡ none) ⊎ (find i (trim arr) ≡ find i arr)
unfolding trim
trim_some i arr d = elim (Bool-cases (ltb log_window (length arr))) [
  | inl over ↦ rw over (find-drop (length arr - log_window) i arr d)
  | inr fits ↦ rw fits (inr refl)
]

pub log_of-append_log :
    (id j : String) (e : LogEntry) (now : ℕ) (s : State)
    → log_of j (append_log id e now s)
      ≡ (if id == j then trim (upsert e (log_of id s)) else log_of j s)
unfolding log_of append_log
log_of-append_log id j e now s =
    ground (arith, get?-insert id j (trim (upsert e (or_default (get? id s.logs) []))) s.logs)

-- Where the log has room for the entry, or holds its index, every entry of every node is known
-- after `appendLog`: the one of that index is stored, and all others are as they were.
pub find-append_log :
    (id j : String) (e : LogEntry) (now : ℕ) (s : State) (i : Option ℕ)
    → length (upsert e (log_of id s)) ≤ log_window
    → find i (log_of j (append_log id e now s)) ≡ (
        if id == j
        then (if e.index == i then some (stored (find i (log_of id s)) e) else find i (log_of id s))
        else find i (log_of j s))
find-append_log id j e now s i h =
    rw (log_of-append_log, trim_fits (upsert e (log_of id s)) h)
      (ground (arith, find-upsert i e (log_of id s)))

upsert-Distinct :
    (e : LogEntry) (arr : List LogEntry)
    → Distinct (indices arr)
    → Distinct (indices (upsert e arr))
upsert-Distinct e arr d = rw (indices-upsert e arr) (Distinct-add e.index (indices arr) d)

upsert-keeps_commit :
    (e : LogEntry) (arr : List LogEntry) (i : Option ℕ) (p : LogEntry)
    → find i arr ≡ some p
    → p.committed ≡ true
    → (q : LogEntry) × (find i (upsert e arr) ≡ some q) × (q.committed ≡ true)
upsert-keeps_commit e arr i p found done = elim (Bool-cases (e.index == i)) [
  | inl hit ↦ (stored (some p) e, rw (find-upsert, hit, found), ground arith)
  | inr miss ↦ (p, rw (find-upsert, miss, found), done)
]

-- When any entry is appended to a log that is no longer than the window and has no index twice,
-- an entry of any node that was committed is still committed, or is not in the window any more.
pub append_log-keeps_commit :
    (id j : String) (e : LogEntry) (now : ℕ) (s : State) (i : Option ℕ) (p : LogEntry)
    → LogIsValid (log_of id s)
    → find i (log_of j s) ≡ some p
    → p.committed ≡ true
    → (find i (log_of j (append_log id e now s)) ≡ none)
      ⊎ ((q : LogEntry) × (find i (log_of j (append_log id e now s)) ≡ some q)
          × (q.committed ≡ true))
append_log-keeps_commit id j e now s i p v found done = elim (Bool-cases (id == j)) [
  | inr miss ↦ inr (p, rw (log_of-append_log, miss, found), done)
  | inl hit ↦
      let (q, there, still) =
        upsert-keeps_commit e (log_of id s) i p
          (subst (λ k. find i (log_of k s) ≡ some p) (sym (beq_sound hit)) found) done in
      elim (trim_some i (upsert e (log_of id s)) (upsert-Distinct e (log_of id s) v.distinct)) [
        | inl gone ↦ inl (rw (log_of-append_log, hit, gone))
        | inr same ↦ inr (q, rw (log_of-append_log, hit, same, there), still)
      ]
]
