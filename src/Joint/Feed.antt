-- ===== src/Joint/Feed.antt =====
-- What a node publishes (infra/node), as the page takes it from the node's stream.
pub mod Logs
pub mod Times
pub mod Links
pub mod State
pub mod Applied
pub mod Drained
use atividade_consenso_raft.Base.{String, some, List, [], ◌∷◌, ◌++◌, ◌≡◌, refl}
use atividade_consenso_raft.World.{World}
use atividade_consenso_raft.Sse.{on_message}
use atividade_consenso_raft.Node.Message.{Published, encode}

-- The events of a node reach the page one after the other.
unfoldable pub deliver_published : String → List Published → World → World
deliver_published id [] w = w
deliver_published id (e ∷ events) w =
    deliver_published id events (on_message id (some (encode e)) w)

pub deliver_published-append :
    (id : String) (xs ys : List Published) (w : World)
    → deliver_published id (xs ++ ys) w ≡ deliver_published id ys (deliver_published id xs w)
unfolding deliver_published
deliver_published-append id [] ys w = refl
deliver_published-append id (x ∷ xs) ys w =
    deliver_published-append id xs ys (on_message id (some (encode x)) w)
