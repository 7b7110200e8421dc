-- ===== src/Sse/Sources/Feed.antt =====
-- The streams feed the page, each for its own node.
use atividade_consenso_raft.Base.{
  ℕ, zero, suc, String, List, [], ◌∷◌, ◌++◌, ◌≡◌, refl, ap, sym, ◌∙◌,
}
use atividade_consenso_raft.World.{World}
use atividade_consenso_raft.Page.Runs.{run-append}
use atividade_consenso_raft.Page.{Task, message, snapshot, act, run}
use atividade_consenso_raft.Sse.Sources.{
  Source, source_of, connect_sse, close, Signal, opened, received, failed, handle, signal, signals,
}

-- The tasks that the signals are, for the nodes of the streams; a failure and a stream that is not there
-- are none.
abbrev pub task_of : String → Signal → List Task
task_of id (opened body) = snapshot id body ∷ []
task_of id (received parsed) = message id parsed ∷ []
task_of id failed = []

abbrev pub signal_tasks : List String → ℕ → Signal → List Task
signal_tasks [] i sig = []
signal_tasks (id ∷ ids) zero sig = task_of id sig
signal_tasks (id ∷ ids) (suc i) sig = signal_tasks ids i sig

abbrev pub tasks_of : List String → List (ℕ × Signal) → List Task
tasks_of ids [] = []
tasks_of ids ((i, sig) ∷ sigs) = signal_tasks ids i sig ++ tasks_of ids sigs

run-task_of : (id : String) (sig : Signal) (w : World) → run w (task_of id sig) ≡ handle id sig w
unfolding run act handle
run-task_of id (opened body) w = refl
run-task_of id (received parsed) w = refl
run-task_of id failed w = refl

run-signal_tasks :
    (ids : List String) (i : ℕ) (sig : Signal) (w : World)
    → signal (connect_sse ids) i sig w ≡ run w (signal_tasks ids i sig)
unfolding connect_sse signal source_of run
run-signal_tasks [] i sig w = refl
run-signal_tasks (id ∷ ids) zero sig w = sym (run-task_of id sig w)
run-signal_tasks (id ∷ ids) (suc i) sig w = run-signal_tasks ids i sig w

-- What the streams of connectSSE bring does to the page what tasks of the page do: each message and
-- each fetched log is a task for the node of its stream, and a failure is none.
pub signals-run :
    (ids : List String) (sigs : List (ℕ × Signal)) (w : World)
    → signals (connect_sse ids) sigs w ≡ run w (tasks_of ids sigs)
unfolding signals run
signals-run ids [] w = refl
signals-run ids ((i, sig) ∷ sigs) w =
    signals-run ids sigs (signal (connect_sse ids) i sig w)
    ∙ ap (λ v. run v (tasks_of ids sigs)) (run-signal_tasks ids i sig w)
    ∙ sym (run-append (signal_tasks ids i sig) (tasks_of ids sigs) w)

closed_signal :
    (sources : List Source) (i : ℕ) (sig : Signal) (w : World) → signal (close sources) i sig w ≡ w
unfolding close signal
closed_signal [] i sig w = refl
closed_signal (es ∷ sources) zero sig w = refl
closed_signal (es ∷ sources) (suc i) sig w = closed_signal sources i sig w

-- After `close` nothing that comes on the streams changes the page.
pub signals-close :
    (sources : List Source) (sigs : List (ℕ × Signal)) (w : World)
    → signals (close sources) sigs w ≡ w
unfolding signals
signals-close sources [] w = refl
signals-close sources ((i, sig) ∷ sigs) w =
    ap (signals (close sources) sigs) (closed_signal sources i sig w) ∙ signals-close sources sigs w
