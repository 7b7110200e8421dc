-- ===== src/Tests/Joint.antt =====
-- The theorems on what a node publishes and the page shows, at concrete inputs.
use atividade_consenso_raft.Base.{
  ℕ, nat_eq, string_eq, option_eq, ◌==◌, true, false, Option, none, some, List, [], ◌∷◌, ◌++◌, has,
  get?, ◌≡◌, refl, subst, arith,
}
use atividade_consenso_raft.Store.State.{Link}
use atividade_consenso_raft.Store.Links.{tick_silence}
use atividade_consenso_raft.Store.Links.Silence.{link_of}
use atividade_consenso_raft.Store.Logs.Commit.{log_of}
use atividade_consenso_raft.Store.Logs.Replay.{newest}
use atividade_consenso_raft.Sse.{fetch_snapshot}
use atividade_consenso_raft.Node.Fsm.{Command, Log, Fsm, apply_all}
use atividade_consenso_raft.Node.Transport.{
  Transport, AppendRequest, AppendResponse, append_entries, emit_log_entries,
}
use atividade_consenso_raft.Node.Api.{read_log}
use atividade_consenso_raft.Joint.Feed.{deliver_published}
use atividade_consenso_raft.Joint.Feed.Logs.{IsPlain, fetch_snapshot-read_log}
use atividade_consenso_raft.Joint.Feed.Links.{append_entries-shows_link}
use atividade_consenso_raft.Joint.Feed.Applied.{committed_entries}
use atividade_consenso_raft.Joint.Feed.Drained.{apply_all-received}
use atividade_consenso_raft.Node.Message.{Published}
use atividade_consenso_raft.Node.Hub.{Hub, HubTask, publishes, receives, offer}
use atividade_consenso_raft.Node.Hub.Order.{received}
use atividade_consenso_raft.Tests.Data.{node1_page}

abbrev read : Command → Option Command
read cmd = some cmd

abbrev put_saci : Command
put_saci = record { type = "PUT"; key = "saci"; value = "doce" }

abbrev third : Log Command
third = record { index = 3; term = 1; is_command = true; content = put_saci }

abbrev logs : List (Log Command)
logs = third ∷ []

abbrev stored : ℕ → Option (Log Command)
stored i = some third

same_command : (cmd : Command) → read put_saci ≡ some cmd → put_saci ≡ cmd
same_command cmd e = cc e

third-IsPlain : IsPlain read third
third-IsPlain = record {
  numbered = refl;
  dated = refl;
  typed = λ cmd e. subst (λ (c : Command). (c.type == "") ≡ false) (same_command cmd e) refl;
  keyed = λ cmd e. subst (λ (c : Command). (c.key == "") ≡ false) (same_command cmd e) refl;
}

fetch_snapshot-read_log_example :
    fetch_snapshot "node2" (some (read_log read 3 3 stored)) node1_page
    ≡ deliver_published "node1" (emit_log_entries read "node1" "node2" logs) node1_page
fetch_snapshot-read_log_example =
    fetch_snapshot-read_log read "node1" "node2" 3 3 logs stored node1_page refl refl refl
      (refl, tt) (third-IsPlain, tt)

abbrev node1 : Transport
node1 = record { node_id = "node1"; tracker = none }

abbrev call : AppendRequest Command
call = record { term = 1; prev_log_entry = 2; entries = [] }

abbrev yes_sir : AppendResponse
yes_sir = record { term = 1; success = true }

append_entries-shows_link_example :
    let w' =
      deliver_published "node1"
        (append_entries read node1 "node2" call (some yes_sir)).1
        node1_page in
    (l : Link) × (link_of "node1" "node2" (tick_silence 4000 w'.state) ≡ some l)
    × (l.last_resp ≡ node1_page.date_now)
    × (l.down ≡ false)
append_entries-shows_link_example =
    append_entries-shows_link read node1 "node2" call yes_sir node1_page 4000 refl refl
      (omega arith)

abbrev fsm1 : Fsm
fsm1 = record { store = []; node_id = "node1" }

abbrev events : List Published
events = (apply_all read logs fsm1).1

abbrev no_events : List Published
no_events = []

-- The node publishes, and the stream of the page takes one event.
abbrev publish_and_take : List Published → List HubTask
publish_and_take [] = []
publish_and_take (e ∷ es) = publishes e ∷ receives 0 ∷ publish_and_take es

abbrev page_stream : Hub
page_stream = (0, no_events) ∷ []

apply_all-received_example :
    log_of "node1"
      (deliver_published "node1"
        (received 0 (publish_and_take events) page_stream)
        node1_page).state
    ≡ newest (log_of "node1" node1_page.state ++ committed_entries read logs)
unfolding has log_of get? apply_all offer
apply_all-received_example =
    apply_all-received read logs fsm1 node1_page 0 (publish_and_take events) page_stream tt refl
      refl (omega arith) refl refl (omega arith) (refl, (refl, (refl, tt)))
