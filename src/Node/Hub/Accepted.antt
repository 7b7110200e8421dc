-- ===== src/Node/Hub/Accepted.antt =====
-- infra/node/event.go: what a stream brings of what is published, and what it misses.
use atividade_consenso_raft.Base.{
  ℕ, suc, ◌-◌, ◌∙◌, length-append, true, false, some, List, [], ◌∷◌, ◌++◌, get?, nat_eq, ◌==◌, ltb,
  length, append_assoc, ◌≡◌, refl, ap, arith, append-nil, Bool-cases, inl, inr, if◌then◌else◌,
}
use atividade_consenso_raft.Node.Hub.Sublists.{Sub, none_left, keep, skip}
use atividade_consenso_raft.Node.Message.{Published}
use atividade_consenso_raft.Node.Hub.{
  Hub, HubTask, publishes, subscribes, unsubscribes, receives, offer, serve, serve_all,
}
use atividade_consenso_raft.Node.Hub.Order.{
  Stays, Stays-head, Stays-tail, told, gone, after_task, took-tail, left_of, received, get?-serve,
  get?-serve_all, tail_of, taken_of,
}

taken_back :
    (queue more : List Published) → taken_of queue ++ (tail_of queue ++ more) ≡ queue ++ more
taken_back [] more = refl
taken_back (e ∷ queue) more = refl

-- The events for which a channel of a size has room, by how many it holds at the time: an event that
-- is published adds one, and a receipt of the subscriber takes one away.
abbrev pub accepted : (id size held : ℕ) → List HubTask → List Published
accepted id size held [] = []
accepted id size held (publishes e ∷ tasks) = elim (ltb held size) [
  | true ↦ e ∷ accepted id size (suc held) tasks
  | false ↦ accepted id size held tasks
]
accepted id size held (receives j ∷ tasks) =
    accepted id size (if j == id then held - 1 else held) tasks
accepted id size held (subscribes _ ∷ tasks) = accepted id size held tasks
accepted id size held (unsubscribes _ ∷ tasks) = accepted id size held tasks

length-tail_of : (queue : List Published) → length (tail_of queue) ≡ length queue - 1
length-tail_of [] = refl
length-tail_of (e ∷ queue) = omega arith

length-snoc :
    (queue : List Published) (e : Published) → length (queue ++ e ∷ []) ≡ suc (length queue)
length-snoc queue e = omega (arith, length-append queue (e ∷ []))

-- One task.
task-accepted :
    (id : ℕ) (t : HubTask) (queue : List Published) (tasks : List HubTask)
    → let queue' = after_task id t queue in
      gone id t queue ++ (queue' ++ accepted id 256 (length queue') tasks)
      ≡ queue ++ accepted id 256 (length queue) (t ∷ tasks)
unfolding offer
task-accepted id (publishes e) queue tasks = elim (Bool-cases (ltb (length queue) 256)) [
  | inl room ↦ rw (room, length-snoc queue e, append_assoc, accepted) refl
  | inr full ↦ rw (full, accepted) refl
]
task-accepted id (receives j) queue tasks = elim (Bool-cases (j == id)) [
  | inl own ↦
      rw (own, length-tail_of queue) (taken_back queue (accepted id 256 (length queue - 1) tasks))
  | inr other ↦ rw other refl
]
task-accepted id (subscribes j) queue tasks = refl
task-accepted id (unsubscribes j) queue tasks = refl

pub received-left_of :
    (id : ℕ) (tasks : List HubTask) (hub : Hub) (queue : List Published)
    → Stays id tasks
    → get? id hub ≡ some queue
    → received id tasks hub ++ left_of id tasks queue
      ≡ queue ++ accepted id 256 (length queue) tasks
received-left_of id [] hub queue s h = rw append-nil refl
received-left_of id (t ∷ tasks) hub queue s h =
    rw (took-tail id t hub queue (received id tasks (serve t hub)) h, append_assoc)
      (ap (gone id t queue ++◌) (
          received-left_of id tasks (serve t hub) (after_task id t queue) (Stays-tail id t tasks s)
            (get?-serve id t hub queue (Stays-head id t tasks s) h))
        ∙ task-accepted id t queue tasks)

accepted-Sub :
    (id size held : ℕ) (tasks : List HubTask) → Sub (accepted id size held tasks) (told tasks)
accepted-Sub id size held [] = none_left
accepted-Sub id size held (publishes e ∷ tasks) = elim (Bool-cases (ltb held size)) [
  | inl room ↦ rw (room, accepted) (keep (accepted-Sub id size (suc held) tasks))
  | inr full ↦ rw (full, accepted) (skip (accepted-Sub id size held tasks))
]
accepted-Sub id size held (receives j ∷ tasks) =
    accepted-Sub id size (if j == id then held - 1 else held) tasks
accepted-Sub id size held (subscribes j ∷ tasks) = accepted-Sub id size held tasks
accepted-Sub id size held (unsubscribes j ∷ tasks) = accepted-Sub id size held tasks

-- A subscriber that stays while the tasks are done receives, or has in its channel in the end, what was
-- in the channel and then exactly those of the events published since that came when the channel held
-- fewer than 256, all of them, in the order in which they were published, each once.
pub received-accepted :
    (id : ℕ) (tasks : List HubTask) (hub : Hub) (queue : List Published)
    → Stays id tasks
    → get? id hub ≡ some queue
    → (rest : List Published) × (get? id (serve_all tasks hub) ≡ some rest)
      × (received id tasks hub ++ rest ≡ queue ++ accepted id 256 (length queue) tasks)
      × Sub (accepted id 256 (length queue) tasks) (told tasks)
received-accepted id tasks hub queue s h = (
  left_of id tasks queue,
  get?-serve_all id tasks hub queue s h,
  received-left_of id tasks hub queue s h,
  accepted-Sub id 256 (length queue) tasks,
)
