-- ===== src/Joint/Feed/Applied.antt =====
-- The commands that a node's store carries out (infra/node/fsm.go), as the page's table of logs has them.
use atividade_consenso_raft.Base.{
  ◌≤◌, String, true, false, Option, none, some, List, [], ◌∷◌, ◌++◌, nat_eq, string_eq, option_eq,
  ◌==◌, length, Distinct, ◌≡◌, refl, ap, ◌∙◌, beq_refl, Option-cases, inl, inr,
}
use atividade_consenso_raft.Config.{log_window}
use atividade_consenso_raft.Event.{prop_key}
use atividade_consenso_raft.Store.State.{LogEntry}
use atividade_consenso_raft.Store.Logs.{upsert, trim}
use atividade_consenso_raft.Store.Logs.Window.{indices}
use atividade_consenso_raft.Store.Logs.Commit.{log_of, log_of-append_log}
use atividade_consenso_raft.Store.Logs.Replay.{newest, pushes, pushes_fresh}
use atividade_consenso_raft.World.{World}
use atividade_consenso_raft.Handlers.{on_apply}
use atividade_consenso_raft.Main.{deliver}
use atividade_consenso_raft.Main.Routing.{deliver-eq-handle}
use atividade_consenso_raft.Sse.{on_message}
use atividade_consenso_raft.Node.Message.{encode, text_field, number_field}
use atividade_consenso_raft.Node.Fsm.{Command, Log, Fsm, execute, apply, apply_all, applied}
use atividade_consenso_raft.Joint.Feed.{deliver_published}
use atividade_consenso_raft.Joint.Feed.Links.{with_node-text, is_text-text_field}
use atividade_consenso_raft.Joint.Feed.State.{prop_key-text_field}

-- The entry of the page's log for a command that was carried out; zeros and empty texts are not told.
abbrev pub committed_entry : {D : Type 0} → Log D → Command → LogEntry
committed_entry l cmd = record {
  index = number_field l.index;
  term = number_field l.term;
  command = text_field cmd.type;
  key = text_field cmd.key;
  value = text_field cmd.value;
  committed = true;
}

on_message-applied :
    {D : Type 0} (id : String) (l : Log D) (cmd : Command) (w : World)
    → (id == "") ≡ false
    → log_of id (on_message id (some (encode (applied id l cmd))) w).state
      ≡ trim (upsert (committed_entry l cmd) (log_of id w.state))
unfolding on_message on_apply encode
on_message-applied id l cmd w named =
    ap (λ e. log_of id (deliver e w).state)
      (with_node-text id (encode (applied id l cmd)) (is_text-text_field id named))
    ∙ ap (λ w'. log_of id w'.state) (deliver-eq-handle (encode (applied id l cmd)) w)
    ∙ log_of-append_log (prop_key (text_field id)) id (committed_entry l cmd) w.date_now w.state
    ∙ rw (prop_key-text_field id named, beq_refl id) refl

module _ {D : Type 0} (unmarshal : D → Option Command) where
  abbrev entry_before : Log D → Option Command → List LogEntry → List LogEntry
  entry_before l none rest = rest
  entry_before l (some cmd) rest = committed_entry l cmd ∷ rest

  -- The commands of a log that can be decoded, as the page has them.
  abbrev pub committed_entries : List (Log D) → List LogEntry
  committed_entries [] = []
  committed_entries (l ∷ ls) = entry_before l (unmarshal l.content) (committed_entries ls)

  log_of-apply_all :
      (ls : List (Log D)) (f : Fsm) (w : World)
      → (f.node_id == "") ≡ false
      → log_of f.node_id (deliver_published f.node_id (apply_all unmarshal ls f).1 w).state
        ≡ pushes (committed_entries ls) (log_of f.node_id w.state)
  unfolding deliver_published apply_all pushes
  log_of-apply_all [] f w named = refl
  log_of-apply_all (l ∷ ls) f w named = elim (Option-cases (unmarshal l.content)) [
    | inl broken ↦ rw (broken, apply) (log_of-apply_all ls f w named)
    | inr (cmd, read) ↦
        rw (read, apply)
          (log_of-apply_all ls (record f { store = execute cmd f.store })
              (on_message f.node_id (some (encode (applied f.node_id l cmd))) w) named
            ∙ ap (pushes (committed_entries ls)) (on_message-applied f.node_id l cmd w named))
  ]

  -- A named node applies a log, and its events reach the page, where its log has none of the indices
  -- and is no longer than the window, and no index stands twice: the page then has the newest of what it
  -- had and of the commands that were carried out, as committed, in the order of the log.
  pub apply_all-shown :
      (ls : List (Log D)) (f : Fsm) (w : World)
      → (f.node_id == "") ≡ false
      → length (log_of f.node_id w.state) ≤ log_window
      → Distinct (indices (log_of f.node_id w.state ++ committed_entries ls))
      → log_of f.node_id (deliver_published f.node_id (apply_all unmarshal ls f).1 w).state
        ≡ newest (log_of f.node_id w.state ++ committed_entries ls)
  apply_all-shown ls f w named room apart =
      log_of-apply_all ls f w named
      ∙ pushes_fresh (committed_entries ls) (log_of f.node_id w.state) room apart
