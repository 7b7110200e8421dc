-- ===== src/Page/Runs.antt =====
-- The tasks of the page in two parts.
use atividade_consenso_raft.Base.{List, [], ◌∷◌, ◌++◌, ◌≡◌, refl}
use atividade_consenso_raft.World.{World}
use atividade_consenso_raft.Page.{Task, act, run}

pub run-append : (ts us : List Task) (w : World) → run w (ts ++ us) ≡ run (run w ts) us
unfolding run
run-append [] us w = refl
run-append (t ∷ ts) us w = run-append ts us (act w t)
