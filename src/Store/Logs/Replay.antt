-- ===== src/Store/Logs/Replay.antt =====
-- A fetched log against the log that the page already shows.
use atividade_consenso_raft.Base.{
  ℕ, zero, suc, ◌≤◌, ◌-◌, string_eq, nat_eq, option_eq, some, List, [], ◌∷◌, ◌++◌, ◌≡◌, refl, ap,
  sym, subst, ◌∙◌, length, drop, arith, has, Distinct, ltb, Bool, true, false, Bool-cases, inl, inr,
  ◌==◌, length-append, length-drop, map-drop, All, drop-append, Distinct-drop, absent_before,
  append_assoc, append-nil, map-append, Distinct-swap,
}
use atividade_consenso_raft.Config.{log_window}
use atividade_consenso_raft.Store.State.{LogEntry}
use atividade_consenso_raft.Store.Logs.{merge, upsert, trim}
use atividade_consenso_raft.Store.Logs.Window.{indices}
use atividade_consenso_raft.Store.Logs.Commit.{find, trim_fits}

-- The last entries of a list, as many as the window holds.
abbrev pub newest : List LogEntry → List LogEntry
newest arr = drop (length arr - log_window) arr

pub trim-eq-newest : (arr : List LogEntry) → trim arr ≡ newest arr
unfolding trim
trim-eq-newest arr = elim (Bool-cases (ltb log_window (length arr))) [
  | inl over ↦ rw over
  | inr fits ↦ let none_over : length arr - log_window ≡ 0 = ground arith in rw (fits, none_over)
]

-- An entry of a new index is pushed.
pub upsert_fresh :
    (e : LogEntry) (arr : List LogEntry)
    → has e.index (indices arr) ≡ false
    → upsert e arr ≡ arr ++ e ∷ []
unfolding upsert has
upsert_fresh e [] h = refl
upsert_fresh e (p ∷ arr) h = ground (arith, upsert_fresh e arr)

one_more : (n : ℕ) → log_window ≤ n → suc n - log_window ≡ suc (n - log_window)
one_more n h = omega arith

-- Taking the newest of the newest and more is taking the newest of all.
drop-newest-append :
    (k : ℕ) (xs ys : List LogEntry)
    → k ≤ length xs - log_window
    → newest (drop k xs ++ ys) ≡ newest (xs ++ ys)
drop-newest-append zero xs ys h = refl
drop-newest-append (suc k) [] ys h = absurd (omega arith)
drop-newest-append (suc k) (x ∷ xs) ys h =
    rw (one_more (length (xs ++ ys)) (omega (arith, length-append {0} xs ys)))
      (drop-newest-append k xs ys (omega arith))

-- The log after a run of entries of one node.
unfoldable pub pushes : List LogEntry → List LogEntry → List LogEntry
pushes [] arr = arr
pushes (e ∷ es) arr = pushes es (trim (upsert e arr))

newest-append-Distinct :
    (xs es : List LogEntry) → Distinct (indices (xs ++ es)) → Distinct (indices (newest xs ++ es))
newest-append-Distinct xs es d =
    rw
      (
        ← drop-append (length xs - log_window) xs es (omega arith),
        map-drop (λ (e : LogEntry). e.index) (length xs - log_window) (xs ++ es),
      )
      (Distinct-drop (length xs - log_window) (indices (xs ++ es)) d)

-- Entries of new indices: the log shows the newest of what it had and of what came.
pub pushes_fresh :
    (es arr : List LogEntry)
    → length arr ≤ log_window
    → Distinct (indices (arr ++ es))
    → pushes es arr ≡ newest (arr ++ es)
unfolding pushes
pushes_fresh [] arr h d =
    let none_over : length arr - log_window ≡ 0 = omega arith in rw (append-nil, none_over)
pushes_fresh (e ∷ es) arr h d =
    rw (upsert_fresh e arr fresh, trim-eq-newest)
      (pushes_fresh es (newest all) (omega (arith, length-drop {0} (length all - log_window) all))
          (newest-append-Distinct all es (subst (λ l. Distinct (indices l)) regroup d))
        ∙ drop-newest-append (length all - log_window) all es (omega arith)
        ∙ ap newest (sym regroup))
  where
    all : List LogEntry
    all = arr ++ e ∷ []

    regroup : arr ++ e ∷ es ≡ all ++ es
    regroup = sym (append_assoc arr (e ∷ []) es)

    fresh : has e.index (indices arr) ≡ false
    fresh =
        absent_before e.index (indices arr) (indices es)
          (subst Distinct (map-append (λ (e : LogEntry). e.index) arr (e ∷ es)) d)

pushes-append : (es fs arr : List LogEntry) → pushes (es ++ fs) arr ≡ pushes fs (pushes es arr)
unfolding pushes
pushes-append [] fs arr = refl
pushes-append (e ∷ es) fs arr = pushes-append es fs (trim (upsert e arr))

-- A list as long as the window hides what stands before it.
newest_suffix : (xs ys : List LogEntry) → log_window ≤ length ys → newest (xs ++ ys) ≡ newest ys
newest_suffix [] ys h = refl
newest_suffix (x ∷ xs) ys h =
    rw (one_more (length (xs ++ ys)) (omega (arith, length-append {0} xs ys)))
      (newest_suffix xs ys h)

-- A run that fills the window with other entries before it comes to those on show, which have the
-- indices of its end: the log then shows the end of the run, as the run has it.
pub pushes_forget :
    (es fs arr : List LogEntry)
    → log_window ≤ length es
    → length arr ≤ log_window
    → indices arr ≡ indices fs
    → Distinct (indices (es ++ fs))
    → pushes (es ++ fs) arr ≡ newest (es ++ fs)
pushes_forget es fs arr many few same d =
    pushes-append es fs arr
    ∙ ap (pushes fs) (pushes_fresh es arr few before ∙ newest_suffix arr es many)
    ∙ pushes_fresh fs (newest es) (omega (arith, length-drop {0} (length es - log_window) es))
        (newest-append-Distinct es fs d)
    ∙ drop-newest-append (length es - log_window) es fs (omega arith)
  where
    before : Distinct (indices (arr ++ es))
    before =
        rw (map-append (λ (e : LogEntry). e.index) arr es, same)
          (Distinct-swap (indices es) (indices fs) (rw map-append at d))

-- The entry is in the log, committed or not.
abbrev pub IsKnown : List LogEntry → LogEntry → Type 0
IsKnown arr e =
    (e.committed ≡ false) × (c : Bool) × (find e.index arr ≡ some (record e { committed = c }))

merge_known :
    {e : LogEntry} (p : LogEntry) (c : Bool)
    → e.committed ≡ false
    → p ≡ record e { committed = c }
    → merge p e ≡ p
unfolding merge
merge_known p c f same = ground arith

upsert_known :
    (e : LogEntry) (arr : List LogEntry) (c : Bool)
    → e.committed ≡ false
    → find e.index arr ≡ some (record e { committed = c })
    → upsert e arr ≡ arr
unfolding upsert find merge
upsert_known e [] c f h = cc
upsert_known e (p ∷ arr) c f h = elim (Bool-cases (p.index == e.index)) [
  | inl hit ↦ rw hit (ap (λ q. q ∷ arr) (merge_known p c f (first hit)))
  | inr miss ↦ rw miss (ap (p ∷◌) (upsert_known e arr c f (skip miss)))
]
  where
    first : (p.index == e.index) ≡ true → p ≡ record e { committed = c }
    first hit = cc hit

    skip : (p.index == e.index) ≡ false → find e.index arr ≡ some (record e { committed = c })
    skip miss = rw miss at h

-- Entries that the log knows already change nothing in it.
pub pushes_known :
    (es arr : List LogEntry) → length arr ≤ log_window → All (IsKnown arr) es → pushes es arr ≡ arr
unfolding pushes
pushes_known [] arr h k = refl
pushes_known (e ∷ es) arr h ((f, c, at), k) =
    rw (upsert_known e arr c f at, trim_fits arr h) (pushes_known es arr h k)
