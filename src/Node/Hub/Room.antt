-- ===== src/Node/Hub/Room.antt =====
-- infra/node/event.go: what a subscriber receives while its channel has room.
use atividade_consenso_raft.Base.{
  ℕ, suc, ◌+◌, ◌-◌, ◌≤◌, true, some, List, [], ◌∷◌, ◌++◌, get?, nat_eq, ◌==◌, ltb, length, ◌≡◌,
  refl, ap, ◌∙◌, arith, if◌then◌else◌,
}
use atividade_consenso_raft.Node.Message.{Published}
use atividade_consenso_raft.Node.Hub.{
  Hub, HubTask, publishes, subscribes, unsubscribes, receives, capacity,
}
use atividade_consenso_raft.Node.Hub.Order.{Stays, told, left_of, received}
use atividade_consenso_raft.Node.Hub.Accepted.{accepted, received-left_of}

-- Nothing is refused while there is room for all that is published.
accepted_all :
    (id size held : ℕ) (tasks : List HubTask)
    → held + length (told tasks) ≤ size
    → accepted id size held tasks ≡ told tasks
accepted_all id size held [] room = refl
accepted_all id size held (publishes e ∷ tasks) room =
    let free : ltb held size ≡ true = ground arith in
    rw (free, accepted) (ap (e ∷◌) (accepted_all id size (suc held) tasks (omega arith)))
accepted_all id size held (receives j ∷ tasks) room =
    accepted_all id size (if j == id then held - 1 else held) tasks (ground arith)
accepted_all id size held (subscribes j ∷ tasks) room = accepted_all id size held tasks room
accepted_all id size held (unsubscribes j ∷ tasks) room = accepted_all id size held tasks room

-- A subscriber that stays while no more is published than its channel has room for receives, or has
-- left in its channel, all that was in the channel and all that was published, in that order.
pub received-all :
    (id : ℕ) (tasks : List HubTask) (hub : Hub) (queue : List Published)
    → Stays id tasks
    → get? id hub ≡ some queue
    → length queue + length (told tasks) ≤ capacity
    → received id tasks hub ++ left_of id tasks queue ≡ queue ++ told tasks
received-all id tasks hub queue s h room =
    received-left_of id tasks hub queue s h
    ∙ ap (queue ++◌) (accepted_all id 256 (length queue) tasks room)
