-- ===== src/Node/Hub/Order.antt =====
-- infra/node/event.go: the channel of a subscriber, and what its stream receives, task by task.
use atividade_consenso_raft.Base.{
  ℕ, false, Option, none, some, List, [], ◌∷◌, ◌++◌, get?, get?-insert, get?-remove, nat_eq, ◌==◌,
  ◌≡◌, refl, arith, beq-cases, Option-cases, inl, inr, beq_refl, if◌then◌else◌,
}
use atividade_consenso_raft.Node.Message.{Published}
use atividade_consenso_raft.Node.Hub.{
  Hub, HubTask, publishes, subscribes, unsubscribes, receives, offer, publish, receive, subscribe,
  unsubscribe, serve, serve_all,
}

abbrev pub add_taken : Option Published → List Published → List Published
add_taken none rest = rest
add_taken (some e) rest = e ∷ rest

-- What the stream of a subscriber receives by a task, before the rest.
abbrev pub took : ℕ → HubTask → Hub → List Published → List Published
took id (receives j) hub rest = if j == id then add_taken (receive j hub).0 rest else rest
took id (publishes _) hub rest = rest
took id (subscribes _) hub rest = rest
took id (unsubscribes _) hub rest = rest

-- What a stream receives by the tasks, in order.
abbrev pub received : ℕ → List HubTask → Hub → List Published
received id [] hub = []
received id (t ∷ tasks) hub = took id t hub (received id tasks (serve t hub))

abbrev pub told : List HubTask → List Published
told [] = []
told (publishes e ∷ tasks) = e ∷ told tasks
told (subscribes _ ∷ tasks) = told tasks
told (unsubscribes _ ∷ tasks) = told tasks
told (receives _ ∷ tasks) = told tasks

pub told-cons :
    (t : HubTask) (tasks : List HubTask) → told (t ∷ tasks) ≡ told (t ∷ []) ++ told tasks
told-cons (publishes e) tasks = refl
told-cons (receives j) tasks = refl
told-cons (subscribes j) tasks = refl
told-cons (unsubscribes j) tasks = refl

-- The subscriber comes and goes with none of the tasks.
abbrev pub Stays : ℕ → List HubTask → Type 0
Stays id [] = Unit {0}
Stays id (publishes _ ∷ tasks) = Stays id tasks
Stays id (receives _ ∷ tasks) = Stays id tasks
Stays id (subscribes j ∷ tasks) = ((j == id) ≡ false) × Stays id tasks
Stays id (unsubscribes j ∷ tasks) = ((j == id) ≡ false) × Stays id tasks

get?-publish :
    (id : ℕ) (e : Published) (hub : Hub) (queue : List Published)
    → get? id hub ≡ some queue
    → get? id (publish e hub) ≡ some (offer e queue)
unfolding get? publish
get?-publish id e [] queue h = cc
get?-publish id e ((j, q) ∷ hub) queue h = ground (arith, get?-publish id e hub queue)

abbrev pub tail_of : List Published → List Published
tail_of [] = []
tail_of (e ∷ queue) = queue

-- What a task leaves in the channel of a subscriber that stays.
abbrev pub after_task : ℕ → HubTask → List Published → List Published
after_task id (publishes e) queue = offer e queue
after_task id (receives j) queue = if j == id then tail_of queue else queue
after_task id _ queue = queue

get?-receive :
    (id j : ℕ) (hub : Hub) (queue : List Published)
    → get? id hub ≡ some queue
    → get? id (receive j hub).1 ≡ some (if j == id then tail_of queue else queue)
unfolding receive
get?-receive id j hub queue h = elim (Option-cases (get? j hub)) [
  | inl absent ↦ ground (arith, h, absent)
  | inr ([], empty) ↦ ground (arith, h, empty)
  | inr (e ∷ q, full) ↦ ground (arith, h, full, get?-insert j id q hub)
]

pub get?-serve :
    (id : ℕ) (t : HubTask) (hub : Hub) (queue : List Published)
    → Stays id (t ∷ [])
    → get? id hub ≡ some queue
    → get? id (serve t hub) ≡ some (after_task id t queue)
unfolding serve subscribe unsubscribe
get?-serve id (publishes e) hub queue s h = get?-publish id e hub queue h
get?-serve id (subscribes j) hub queue s h = rw (get?-insert j id [] hub, s.0) h
get?-serve id (unsubscribes j) hub queue s h = rw (get?-remove j id hub, s.0) h
get?-serve id (receives j) hub queue s h = get?-receive id j hub queue h

-- What the subscriber receives by a task.
abbrev pub taken_of : List Published → List Published
taken_of [] = []
taken_of (e ∷ queue) = e ∷ []

abbrev pub gone : ℕ → HubTask → List Published → List Published
gone id (receives j) queue = if j == id then taken_of queue else []
gone id _ queue = []

pub Stays-head :
    (id : ℕ) (t : HubTask) (tasks : List HubTask) → Stays id (t ∷ tasks) → Stays id (t ∷ [])
Stays-head id (publishes e) tasks s = tt
Stays-head id (receives j) tasks s = tt
Stays-head id (subscribes j) tasks s = (s.0, tt)
Stays-head id (unsubscribes j) tasks s = (s.0, tt)

pub Stays-tail :
    (id : ℕ) (t : HubTask) (tasks : List HubTask) → Stays id (t ∷ tasks) → Stays id tasks
Stays-tail id (publishes e) tasks s = s
Stays-tail id (receives j) tasks s = s
Stays-tail id (subscribes j) tasks s = s.1
Stays-tail id (unsubscribes j) tasks s = s.1

-- What is left in the channel of a subscriber that stays.
abbrev pub left_of : ℕ → List HubTask → List Published → List Published
left_of id [] queue = queue
left_of id (t ∷ tasks) queue = left_of id tasks (after_task id t queue)

pub get?-serve_all :
    (id : ℕ) (tasks : List HubTask) (hub : Hub) (queue : List Published)
    → Stays id tasks
    → get? id hub ≡ some queue
    → get? id (serve_all tasks hub) ≡ some (left_of id tasks queue)
unfolding serve_all
get?-serve_all id [] hub queue s h = h
get?-serve_all id (t ∷ tasks) hub queue s h =
    get?-serve_all id tasks (serve t hub) (after_task id t queue) (Stays-tail id t tasks s)
      (get?-serve id t hub queue (Stays-head id t tasks s) h)

receive-first :
    (id : ℕ) (hub : Hub) (queue : List Published)
    → get? id hub ≡ some queue
    → (rest : List Published) → add_taken (receive id hub).0 rest ≡ taken_of queue ++ rest
unfolding receive
receive-first id hub [] h rest = rw (h, receive) refl
receive-first id hub (e ∷ queue) h rest = rw (h, receive) refl

pub took-tail :
    (id : ℕ) (t : HubTask) (hub : Hub) (queue rest : List Published)
    → get? id hub ≡ some queue
    → took id t hub rest ≡ gone id t queue ++ rest
took-tail id (publishes e) hub queue rest h = refl
took-tail id (subscribes j) hub queue rest h = refl
took-tail id (unsubscribes j) hub queue rest h = refl
took-tail id (receives j) hub queue rest h = elim (beq-cases j id) [
  | inl same ↦ rw (same, beq_refl id) (receive-first id hub queue h rest)
  | inr other ↦ rw other refl
]
