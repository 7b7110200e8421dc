-- ===== src/Node/Acks.antt =====
-- infra/node/replication.go: how far each peer has acknowledged the log.
use atividade_consenso_raft.Base.{
  ℕ, ◌≤◌, max, String, Bool, List, [], ◌∷◌, ◌++◌, map, Map, get?, insert, get?-insert, ltb,
  string_eq, ◌==◌, or_default, ◌≡◌, arith, if◌then◌else◌,
}
use atividade_consenso_raft.Node.Message.{Published, event}

-- `match[peer]` is 0 for a peer that is not there.
abbrev pub match_of : String → Map String ℕ → ℕ
match_of peer tracked = or_default (get? peer tracked) 0

unfoldable pub observe : String → ℕ → Map String ℕ → Map String ℕ
unfolding get? insert
observe peer high_idx tracked =
    if ltb (match_of peer tracked) high_idx then insert peer high_idx tracked else tracked

unfoldable pub snapshot : Map String ℕ → Map String ℕ
snapshot tracked = tracked

abbrev pub replication_event : String → String × ℕ → Published
replication_event node_id (peer, idx) = record (event "replication" node_id) {
  to = peer;
  index = idx;
}

-- A round of `publishReplication`: what is published.
unfoldable pub publish_replication : Bool → String → Map String ℕ → List Published
unfolding snapshot
publish_replication is_leader node_id tracked =
    if is_leader then map (replication_event node_id) (snapshot tracked) else []

-- Acknowledgements, one after the other.
abbrev pub observe_all : List (String × ℕ) → Map String ℕ → Map String ℕ
observe_all [] tracked = tracked
observe_all ((peer, idx) ∷ acks) tracked = observe_all acks (observe peer idx tracked)

-- The greatest index that a peer acknowledged.
abbrev pub greatest : String → List (String × ℕ) → ℕ
greatest peer [] = 0
greatest peer ((p, idx) ∷ acks) = max (if p == peer then idx else 0) (greatest peer acks)

match_of-observe :
    (peer p : String) (idx : ℕ) (tracked : Map String ℕ)
    → match_of peer (observe p idx tracked)
      ≡ max (if p == peer then idx else 0) (match_of peer tracked)
unfolding observe
match_of-observe peer p idx tracked =
    ground (arith, get?-insert p peer idx tracked, string_eq.test_iff p peer)

match_of-observe_all :
    (peer : String) (acks : List (String × ℕ)) (tracked : Map String ℕ)
    → match_of peer (observe_all acks tracked) ≡ max (greatest peer acks) (match_of peer tracked)
match_of-observe_all peer [] tracked = omega arith
match_of-observe_all peer ((p, idx) ∷ acks) tracked = omega (
  arith,
  match_of-observe_all peer acks (observe p idx tracked),
  match_of-observe peer p idx tracked,
)

greatest-append :
    (peer : String) (xs ys : List (String × ℕ))
    → greatest peer (xs ++ ys) ≡ max (greatest peer xs) (greatest peer ys)
greatest-append peer [] ys = omega arith
greatest-append peer (x ∷ xs) ys = omega (arith, greatest-append peer xs ys)

-- A peer's index is the greatest that it acknowledged, or what it was if that is greater; it never
-- goes back, and two runs of acknowledgements may come in either order.
pub observe_all-match_of :
    (peer : String) (xs ys : List (String × ℕ)) (tracked : Map String ℕ)
    → (match_of peer (observe_all (xs ++ ys) tracked)
        ≡ max (greatest peer (xs ++ ys)) (match_of peer tracked))
      × (match_of peer tracked ≤ match_of peer (observe_all (xs ++ ys) tracked))
      × (match_of peer (observe_all (xs ++ ys) tracked)
          ≡ match_of peer (observe_all (ys ++ xs) tracked))
observe_all-match_of peer xs ys tracked = omega (
  arith,
  match_of-observe_all peer (xs ++ ys) tracked,
  match_of-observe_all peer (ys ++ xs) tracked,
  greatest-append peer xs ys,
  greatest-append peer ys xs,
)
