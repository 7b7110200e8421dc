-- ===== src/Node/Hub.antt =====
-- infra/node/event.go: the hub that passes the events of a node on to the streams of its subscribers.
pub mod Sublists
pub mod Order
pub mod Accepted
pub mod Room
use atividade_consenso_raft.Base.{
  ℕ, ◌+◌, ◌≤◌, String, Bool, true, false, not, Option, none, some, List, [], ◌∷◌, ◌++◌, map, Map,
  get?, insert, remove, nat_eq, ◌==◌, ltb, length, length-append, All, All-insert, All-get?, ◌≡◌,
  refl, arith, Option-cases, inl, inr, if◌then◌else◌,
}
use atividade_consenso_raft.Node.Message.{Published}

-- The subscribers by number, each with what its channel holds.
abbrev pub Hub : Type 0
Hub = Map ℕ (List Published)

-- The size that `subscribe` gives a channel.
abbrev pub capacity : ℕ
capacity = 256

unfoldable pub new_hub : Hub
new_hub = []

-- `case s <- e` or, when the channel is full, nothing.
unfoldable pub offer : Published → List Published → List Published
offer e queue = if ltb (length queue) capacity then queue ++ e ∷ [] else queue

unfoldable pub publish : Published → Hub → Hub
unfolding offer
publish e [] = []
publish e ((id, queue) ∷ hub) = (id, offer e queue) ∷ publish e hub

unfoldable pub subscribe : ℕ → Hub → Hub
unfolding insert
subscribe id hub = insert id [] hub

unfoldable pub unsubscribe : ℕ → Hub → Hub
unfolding remove
unsubscribe id hub = remove id hub

-- The first event that a channel holds.
abbrev pub head_of : Option (List Published) → Option (Published × List Published)
head_of none = none
head_of (some []) = none
head_of (some (e ∷ queue)) = some (e, queue)

-- `case e := <-sub`: the loop of a stream writes the next event.
unfoldable pub receive : ℕ → Hub → Option Published × Hub
unfolding get? insert
receive id hub = elim (head_of (get? id hub)) [
  | none ↦ (none, hub)
  | some (e, queue) ↦ (some e, insert id queue hub)
]

pub data HubTask : Type 0 where
  publishes : Published → HubTask
  subscribes unsubscribes receives : ℕ → HubTask

unfoldable pub serve : HubTask → Hub → Hub
unfolding publish subscribe unsubscribe receive
serve (publishes e) hub = publish e hub
serve (subscribes id) hub = subscribe id hub
serve (unsubscribes id) hub = unsubscribe id hub
serve (receives id) hub = (receive id hub).1

unfoldable pub serve_all : List HubTask → Hub → Hub
unfolding serve
serve_all [] hub = hub
serve_all (t ∷ tasks) hub = serve_all tasks (serve t hub)

abbrev pub IsBounded : Hub → Type 0
IsBounded hub = All (λ p. length p.1 ≤ capacity) hub

offer-bounded :
    (e : Published) (queue : List Published)
    → length queue ≤ capacity
    → length (offer e queue) ≤ capacity
unfolding offer
offer-bounded e queue h = ground (arith, length-append queue (e ∷ []))

publish-IsBounded : (e : Published) (hub : Hub) → IsBounded hub → IsBounded (publish e hub)
unfolding publish
publish-IsBounded e [] h = tt
publish-IsBounded e ((id, queue) ∷ hub) h = (offer-bounded e queue h.0, publish-IsBounded e hub h.1)

remove-IsBounded : (id : ℕ) (hub : Hub) → IsBounded hub → IsBounded (remove id hub)
unfolding remove
remove-IsBounded id [] h = tt
remove-IsBounded id ((j, queue) ∷ hub) h = ground (arith, remove-IsBounded id hub h.1)

receive-IsBounded : (id : ℕ) (hub : Hub) → IsBounded hub → IsBounded (receive id hub).1
unfolding receive
receive-IsBounded id hub h = elim (Option-cases (get? id hub)) [
  | inl absent ↦ rw (absent, receive) h
  | inr ([], empty) ↦ rw (empty, receive) h
  | inr (e ∷ queue, full) ↦
      let bound : length (e ∷ queue) ≤ capacity =
        All-get? (λ _ q. length q ≤ capacity) id hub h full in
      rw (full, receive)
        (All-insert (λ _ q. length q ≤ capacity) id queue hub h (omega (arith, bound)))
]

serve-IsBounded : (t : HubTask) (hub : Hub) → IsBounded hub → IsBounded (serve t hub)
unfolding serve subscribe unsubscribe
serve-IsBounded (publishes e) hub h = publish-IsBounded e hub h
serve-IsBounded (subscribes id) hub h =
    All-insert (λ _ q. length q ≤ capacity) id [] hub h (omega arith)
serve-IsBounded (unsubscribes id) hub h = remove-IsBounded id hub h
serve-IsBounded (receives id) hub h = receive-IsBounded id hub h

-- Whatever is published, subscribed and received, no channel holds more than 256 events.
pub serve_all-IsBounded :
    (tasks : List HubTask) (hub : Hub) → IsBounded hub → IsBounded (serve_all tasks hub)
unfolding serve_all
serve_all-IsBounded [] hub h = h
serve_all-IsBounded (t ∷ tasks) hub h =
    serve_all-IsBounded tasks (serve t hub) (serve-IsBounded t hub h)
