-- ===== src/Store/Logs/Order.antt =====
-- `apply` and `log_entry` of one entry, in either order.
use atividade_consenso_raft.Base.{
  lookup_laws, ℕ, ◌+◌, ◌-◌, ◌≤◌, String, string_eq, nat_eq, option_eq, ◌==◌, Bool, true, false,
  ◌||◌, List, [], ◌∷◌, ◌++◌, Map, insert, length, length-append, drop, drop-append, map-drop, has,
  has-add, has-drop, ◌≡◌, ap, sym, ◌∙◌, arith, Bool-cases, inl, inr, beq_refl, length-drop,
}
use atividade_consenso_raft.Config.{log_window}
use atividade_consenso_raft.Store.State.{LogEntry, State}
use atividade_consenso_raft.Store.Logs.{merge, upsert, trim, append_log}
use atividade_consenso_raft.Store.Logs.Window.{indices, indices-upsert, LogIsValid}
use atividade_consenso_raft.Store.Logs.Commit.{log_of, trim_fits, length-upsert_known}
use atividade_consenso_raft.Store.Logs.Replay.{upsert_fresh, trim-eq-newest}

-- The entry with this mark.
abbrev pub marked : Bool → LogEntry → LogEntry
marked b e = record e { committed = b }

or_swap : (a b c : Bool) → ((a || b) || c) ≡ ((a || c) || b)
or_swap a b c = ground arith

or_comm : (b c : Bool) → (b || c) ≡ (c || b)
or_comm b c = ground arith

upsert-upsert :
    (e : LogEntry) (b c : Bool) (arr : List LogEntry)
    → has e.index (indices arr) ≡ true
    → upsert (marked b e) (upsert (marked c e) arr) ≡ upsert (marked c e) (upsert (marked b e) arr)
unfolding upsert merge has
upsert-upsert e b c [] h = absurd (ground arith)
upsert-upsert e b c (p ∷ arr) h = elim (Bool-cases (p.index == e.index)) [
  | inl hit ↦ rw (hit, beq_refl e.index) (ap (λ x. marked x e ∷ arr) (or_swap p.committed c b))
  | inr miss ↦ rw (miss, miss) (ap (p ∷◌) (upsert-upsert e b c arr (ground arith)))
]

upsert_last :
    (e : LogEntry) (b c : Bool) (arr : List LogEntry)
    → has e.index (indices arr) ≡ false
    → upsert (marked b e) (arr ++ marked c e ∷ []) ≡ arr ++ marked (c || b) e ∷ []
unfolding upsert merge has
upsert_last e b c [] h = rw (beq_refl e.index)
upsert_last e b c (p ∷ arr) h = ground (arith, upsert_last e b c arr)

-- How many entries leave a log that takes one more.
abbrev excess : List LogEntry → ℕ
excess arr = (length arr + 1) - log_window

trim-upsert_fresh :
    (e : LogEntry) (arr : List LogEntry)
    → length arr ≤ log_window
    → has e.index (indices arr) ≡ false
    → trim (upsert e arr) ≡ drop (excess arr) arr ++ e ∷ []
trim-upsert_fresh e arr h fresh =
    rw (upsert_fresh e arr fresh, trim-eq-newest, length-append)
      (drop-append (excess arr) arr (e ∷ []) (omega arith))

-- An entry that is new to the log, in both messages.
twice_fresh :
    (e : LogEntry) (b c : Bool) (arr : List LogEntry)
    → length arr ≤ log_window
    → has e.index (indices arr) ≡ false
    → trim (upsert (marked b e) (trim (upsert (marked c e) arr)))
      ≡ drop (excess arr) arr ++ marked (c || b) e ∷ []
twice_fresh e b c arr h fresh =
    ap (λ l. trim (upsert (marked b e) l)) (trim-upsert_fresh (marked c e) arr h fresh)
    ∙ ap trim
        (upsert_last e b c kept (rw map-drop (has-drop (excess arr) e.index (indices arr) fresh)))
    ∙ trim_fits (kept ++ marked (c || b) e ∷ [])
        (omega (arith, length-append kept (marked (c || b) e ∷ []), length-drop (excess arr) arr))
  where
    kept : List LogEntry
    kept = drop (excess arr) arr

-- An entry whose index the log has.
twice_known :
    (e : LogEntry) (b c : Bool) (arr : List LogEntry)
    → length arr ≤ log_window
    → has e.index (indices arr) ≡ true
    → trim (upsert (marked b e) (trim (upsert (marked c e) arr)))
      ≡ upsert (marked b e) (upsert (marked c e) arr)
twice_known e b c arr h known =
    ap (λ l. trim (upsert (marked b e) l)) (trim_fits once (omega (arith, size)))
    ∙ trim_fits (upsert (marked b e) once)
        (omega (arith, size, length-upsert_known (marked b e) once still))
  where
    once : List LogEntry
    once = upsert (marked c e) arr

    size : length once ≡ length arr
    size = length-upsert_known (marked c e) arr known

    still : has e.index (indices once) ≡ true
    still = rw (indices-upsert (marked c e) arr, has-add, beq_refl e.index)

twice_swap :
    (e : LogEntry) (b c : Bool) (arr : List LogEntry)
    → length arr ≤ log_window
    → trim (upsert (marked b e) (trim (upsert (marked c e) arr)))
      ≡ trim (upsert (marked c e) (trim (upsert (marked b e) arr)))
twice_swap e b c arr h = elim (Bool-cases (has e.index (indices arr))) [
  | inl known ↦
      twice_known e b c arr h known
      ∙ upsert-upsert e b c arr known
      ∙ sym (twice_known e c b arr h known)
  | inr fresh ↦
      twice_fresh e b c arr h fresh
      ∙ ap (λ x. drop (excess arr) arr ++ marked x e ∷ []) (or_comm c b)
      ∙ sym (twice_fresh e c b arr h fresh)
]

insert_twice :
    {V : Type 0} (k : String) (u v : V) (m : Map String V)
    → insert k v (insert k u m) ≡ insert k v m
unfolding insert
insert_twice k u v [] = rw (beq_refl k)
insert_twice k u v ((j, w) ∷ m) = elim (Bool-cases (j == k)) [
  | inl hit ↦ rw (hit, hit)
  | inr miss ↦ rw (miss, miss) (ap ((j, w) ∷◌) (insert_twice k u v m))
]

log-append_log-append_log :
    (id : String) (e : LogEntry) (b c : Bool) (now : ℕ) (s : State)
    → (append_log id (marked b e) now (append_log id (marked c e) now s)).logs
      ≡ insert id (trim (upsert (marked b e) (trim (upsert (marked c e) (log_of id s))))) s.logs
unfolding append_log log_of
log-append_log-append_log id e b c now s = simp (insert_twice, lookup_laws)

-- An entry that is stored twice, once as committed, gives the same state in either order.
pub append_log-swap :
    (id : String) (e : LogEntry) (now : ℕ) (s : State)
    → LogIsValid (log_of id s)
    → append_log id (marked false e) now (append_log id (marked true e) now s)
      ≡ append_log id (marked true e) now (append_log id (marked false e) now s)
unfolding append_log
append_log-swap id e now s v =
    ap (λ l. record (append_log id (marked true e) now s) { logs = l })
      (log-append_log-append_log id e false true now s
        ∙ ap (λ l. insert id l s.logs) (twice_swap e false true (log_of id s) v.bounded)
        ∙ sym (log-append_log-append_log id e true false now s))
