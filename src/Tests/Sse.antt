-- ===== src/Tests/Sse.antt =====
-- The theorems on the fetched logs at concrete inputs.
use atividade_consenso_raft.Base.{
  ℕ, zero, suc, ◌<◌, ap, length, string_eq, nat_eq, option_eq, true, false, some, List, [], ◌∷◌,
  ◌++◌, ◌≡◌, refl, All, map, get?, has, arith, Distinct,
}
use atividade_consenso_raft.Event.{is_positive}
use atividade_consenso_raft.Store.Logs.Commit.{log_of, find}
use atividade_consenso_raft.Store.Logs.Replay.{newest}
use atividade_consenso_raft.World.{World}
use atividade_consenso_raft.Sse.{SnapshotEntry, fetch_snapshot}
use atividade_consenso_raft.Sse.Replay.{in_flight, fetch_snapshot_known, fetch_snapshot_forgets}
use atividade_consenso_raft.Tests.Data.{page_of, node1_page, entry_at}

abbrev fetched : ℕ → SnapshotEntry
fetched i = record {
  index = some i;
  term = some 1;
  command = some "PUT";
  key = some "saci";
  value = some "doce";
}

fetch_snapshot_known_example :
    log_of "node1" (fetch_snapshot "node1" (some (fetched 1 ∷ fetched 2 ∷ [])) node1_page).state
    ≡ log_of "node1" node1_page.state
unfolding log_of get? find
fetch_snapshot_known_example =
    fetch_snapshot_known "node1" (fetched 1 ∷ fetched 2 ∷ []) node1_page refl (refl, (refl, tt))
      (omega arith) ((refl, true, refl), ((refl, false, refl), tt))

-- The entries after the first one.
above : ℕ → List SnapshotEntry
above zero = []
above (suc n) = fetched (suc (suc n)) ∷ above n

abbrev first : List SnapshotEntry
first = fetched 1 ∷ []

abbrev applied_page : World
applied_page = page_of [] [] [] (entry_at 1 true ∷ [])

above-numbered :
    (n : ℕ) → All (λ (e : SnapshotEntry). is_positive e.index ≡ true) (above n ++ first)
unfolding above
above-numbered zero = (refl, tt)
above-numbered (suc n) = (ground arith, above-numbered n)

above-length : (n : ℕ) → length (above n) ≡ n
unfolding above
above-length zero = refl
above-length (suc n) = ap suc (above-length n)

above-fresh :
    (k n : ℕ)
    → suc n < k
    → has (some k) (map (λ (e : SnapshotEntry). e.index) (above n ++ first)) ≡ false
unfolding above has
above-fresh k zero h = ground arith
above-fresh k (suc n) h = ground (arith, above-fresh k n)

above-Distinct : (n : ℕ) → Distinct (map (λ (e : SnapshotEntry). e.index) (above n ++ first))
unfolding above has
above-Distinct zero = (refl, tt)
above-Distinct (suc n) = (above-fresh (suc (suc n)) n (omega arith), above-Distinct n)

fetch_snapshot_forgets_example :
    let after =
      log_of "node1" (fetch_snapshot "node1" (some (above 30 ++ first)) applied_page).state in
    (after ≡ newest (map in_flight (above 30 ++ first))) × All (λ e. e.committed ≡ false) after
unfolding log_of get?
fetch_snapshot_forgets_example =
    fetch_snapshot_forgets "node1" (above 30) first applied_page refl (above-numbered 30)
      (omega (arith, above-length 30)) (omega arith) refl (above-Distinct 30)
