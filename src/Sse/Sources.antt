-- ===== src/Sse/Sources.antt =====
-- connectSSE of infra/dashboard/js/sse.js: a stream for each node, and what its handlers do.
pub mod Feed
use atividade_consenso_raft.Base.{
  ℕ, zero, suc, String, Bool, true, false, Option, none, some, List, [], ◌∷◌, map, concat,
  if◌then◌else◌,
}
use atividade_consenso_raft.Event.{Event}
use atividade_consenso_raft.World.{World}
use atividade_consenso_raft.Sse.{SnapshotEntry, on_message, fetch_snapshot}

-- An EventSource, with the node that its handlers are made for.
pub record Source : Type 0 where
  pub id : String
  pub url : String
  pub is_open : Bool

unfoldable pub source_of : String → Source
unfolding concat
source_of id = record { id = id; url = concat ("/events/" ∷ id ∷ []); is_open = true }

unfoldable pub connect_sse : List String → List Source
unfolding source_of
connect_sse node_ids = map source_of node_ids

-- The function `close` that connectSSE returns.
unfoldable pub close : List Source → List Source
close sources = map (λ (es : Source). record es { is_open = false }) sources

-- What happens on a stream: it opens, where the log is fetched with this answer; a message comes; or the
-- connection fails, which is only logged, as the stream connects again by itself.
pub data Signal : Type 0 where
  opened : Option (List SnapshotEntry) → Signal
  received : Option Event → Signal
  failed : Signal

unfoldable pub handle : String → Signal → World → World
unfolding on_message fetch_snapshot
handle id (opened body) w = fetch_snapshot id body w
handle id (received parsed) w = on_message id parsed w
handle id failed w = w

-- A signal on one of the streams; one that is closed calls no handler any more.
unfoldable pub signal : List Source → ℕ → Signal → World → World
unfolding handle
signal [] i sig w = w
signal (es ∷ sources) zero sig w = if es.is_open then handle es.id sig w else w
signal (es ∷ sources) (suc i) sig w = signal sources i sig w

unfoldable pub signals : List Source → List (ℕ × Signal) → World → World
unfolding signal
signals sources [] w = w
signals sources ((i, sig) ∷ sigs) w = signals sources sigs (signal sources i sig w)
