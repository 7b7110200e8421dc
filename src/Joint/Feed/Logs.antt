-- ===== src/Joint/Feed/Logs.antt =====
-- The two ways in which the page learns of the entries of a follower's log: from the calls of the leader,
-- and from the log that the follower answers with.
use atividade_consenso_raft.Base.{
  ℕ, ◌+◌, ◌-◌, String, false, not, Option, some, List, [], ◌∷◌, nat_eq, string_eq, ◌==◌, length,
  All, ◌≡◌, refl, ◌∙◌, sym, arith, Bool-cases, Option-cases, inl, inr, if_case,
}
use atividade_consenso_raft.Event.{Event, is_text}
use atividade_consenso_raft.World.{World}
use atividade_consenso_raft.Handlers.{on_log_entry}
use atividade_consenso_raft.Main.{deliver}
use atividade_consenso_raft.Main.Routing.{deliver-eq-handle}
use atividade_consenso_raft.Sse.{
  snapshot_event, deliver_entries, fetch_snapshot, on_message, with_node,
}
use atividade_consenso_raft.Node.Message.{encode}
use atividade_consenso_raft.Node.Fsm.{Command, Log}
use atividade_consenso_raft.Node.Transport.{emit_log_entries, log_entry_event}
use atividade_consenso_raft.Node.Api.{collect, read_from, read_log, entry_of}
use atividade_consenso_raft.Joint.Feed.{deliver_published}

pub deliver-log_entry :
    (e : Event) (w : World) → e.type ≡ "log_entry" → deliver e w ≡ on_log_entry e w
deliver-log_entry e w kind = deliver-eq-handle e w ∙ rw kind refl

-- The handler does not read who published.
on_log_entry-with_node :
    (id : String) (e : Event) (w : World) → on_log_entry (with_node id e) w ≡ on_log_entry e w
unfolding with_node on_log_entry
on_log_entry-with_node id e w =
    if_case (λ v. on_log_entry v w ≡ on_log_entry e w) (not (is_text e.node)) refl refl

pub type-with_node : (id : String) (e : Event) → (with_node id e).type ≡ e.type
unfolding with_node
type-with_node id e = if_case (λ (v : Event). v.type ≡ e.type) (not (is_text e.node)) refl refl

-- One entry, told by the leader or read from the follower.
on_message-log_entry :
    {D : Type 0} (leader peer : String) (l : Log D) (cmd : Command) (w : World)
    → (peer == "") ≡ false
    → (l.index == 0) ≡ false
    → (l.term == 0) ≡ false
    → (cmd.type == "") ≡ false
    → (cmd.key == "") ≡ false
    → on_message leader (some (encode (log_entry_event leader peer l cmd))) w
      ≡ deliver (snapshot_event peer (entry_of l cmd)) w
unfolding on_message encode snapshot_event on_log_entry
on_message-log_entry leader peer l cmd w named index term type key =
    deliver-log_entry (with_node leader told) w (type-with_node leader told)
    ∙ on_log_entry-with_node leader told w
    ∙ handled
    ∙ sym (deliver-log_entry (snapshot_event peer (entry_of l cmd)) w refl)
  where
    told : Event
    told = encode (log_entry_event leader peer l cmd)

    handled : on_log_entry told w ≡ on_log_entry (snapshot_event peer (entry_of l cmd)) w
    handled = ground (arith, named, index, term, type, key)

-- What the two ways take for granted of an entry: a command can be decoded and has a type and a key, and
-- indices and terms begin with 1.
pub record IsPlain {D : Type 0} (unmarshal : D → Option Command) (l : Log D) : Type 0 where
  pub numbered : (l.index == 0) ≡ false
  pub dated : (l.term == 0) ≡ false
  pub typed : (cmd : Command) → unmarshal l.content ≡ some cmd → (cmd.type == "") ≡ false
  pub keyed : (cmd : Command) → unmarshal l.content ≡ some cmd → (cmd.key == "") ≡ false

-- The records of a follower's store from an index on.
abbrev pub Holds : {D : Type 0} → ℕ → List (Log D) → (ℕ → Option (Log D)) → Type 0
Holds i [] get_log = Unit {0}
Holds i (l ∷ ls) get_log = (get_log i ≡ some l) × Holds (i + 1) ls get_log

module _ {D : Type 0} (unmarshal : D → Option Command) (leader peer : String) where
  deliver-read_from :
      (i : ℕ) (ls : List (Log D)) (get_log : ℕ → Option (Log D)) (w : World)
      → (peer == "") ≡ false
      → Holds i ls get_log
      → All (IsPlain unmarshal) ls
      → deliver_published leader (emit_log_entries unmarshal leader peer ls) w
        ≡ deliver_entries peer (read_from unmarshal i (length ls) get_log) w
  unfolding deliver_published emit_log_entries deliver_entries read_from
  deliver-read_from i [] get_log w named holds plain = refl
  deliver-read_from i (l ∷ ls) get_log w named holds plain = elim (Bool-cases l.is_command) [
    | inr other ↦
        rw (holds.0, other, collect) (deliver-read_from (i + 1) ls get_log w named holds.1 plain.1)
    | inl command ↦ elim (Option-cases (unmarshal l.content)) [
      | inl broken ↦
          rw (holds.0, command, broken, collect)
            (deliver-read_from (i + 1) ls get_log w named holds.1 plain.1)
      | inr (cmd, read) ↦
          rw (holds.0, command, read, collect)
            (rw
              (on_message-log_entry leader peer l cmd w named plain.0.numbered plain.0.dated
                (plain.0.typed cmd read) (plain.0.keyed cmd read))
              (deliver-read_from (i + 1) ls get_log _ named holds.1 plain.1))
    ]
  ]

  -- The entries that a leader sends to a named follower, which the follower has in its store from its
  -- first index to its last, change the page in one way, whether it is told of them by the calls of the
  -- leader or fetches the follower's log. Their indices and terms are positive, and what can be decoded
  -- of them has a type and a key.
  pub fetch_snapshot-read_log :
      (first last : ℕ) (ls : List (Log D)) (get_log : ℕ → Option (Log D)) (w : World)
      → (peer == "") ≡ false
      → (first == 0) ≡ false
      → last + 1 ≡ first + length ls
      → Holds first ls get_log
      → All (IsPlain unmarshal) ls
      → fetch_snapshot peer (some (read_log unmarshal first last get_log)) w
        ≡ deliver_published leader (emit_log_entries unmarshal leader peer ls) w
  unfolding fetch_snapshot read_log
  fetch_snapshot-read_log first last ls get_log w named started many holds plain =
      let rounds : last + 1 - first ≡ length ls = omega arith in
      rw (started, rounds) (sym (deliver-read_from first ls get_log w named holds plain))
