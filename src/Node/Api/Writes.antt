-- ===== src/Node/Api/Writes.antt =====
-- infra/node/http.go: a client that reads what it wrote.
use atividade_consenso_raft.Base.{
  ℕ, String, true, false, Option, none, some, List, [], ◌∷◌, ◌++◌, string_eq, ◌==◌, or_default,
  is_some, ◌≡◌, refl, ◌∙◌, subst, arith, Bool-cases, Option-cases, inl, inr, beq_refl,
}
use atividade_consenso_raft.Node.Fsm.{Command, Log, Fsm, cmd_put, cmd_del, apply, apply_all, get}
use atividade_consenso_raft.Node.Fsm.Replay.{effect, effect_of, decided, get-apply_all}
use atividade_consenso_raft.Node.Api.{
  KvRequest, accepted, found, Raft, submit, handle_command, handle_put, handle_delete, handle_get,
}

-- What hashicorp/raft documents of Apply: when its future succeeds, the entry with the data has been
-- applied to the store, after those that stood before it in the log.
pub record Commits {S D : Type 0} (raft : Raft S D) (unmarshal : D → Option Command) : Type 0 where
  pub applies :
      (content : D) (s : S) (i : ℕ)
      → (raft.propose content s).0 ≡ some i
      → (ls : List (Log D)) × (l : Log D) × (l.content ≡ content)
        × (raft.fsm (raft.propose content s).1
            ≡ (apply_all unmarshal (ls ++ l ∷ []) (raft.fsm s)).0)

-- A command that is written in JSON is read as it was.
pub record IsJson {D : Type 0} (marshal : Command → Option D) (unmarshal : D → Option Command)
    : Type 0 where
  pub reads : (cmd : Command) (t : D) → marshal cmd ≡ some t → unmarshal t ≡ some cmd

module _ {S D : Type 0} (raft : Raft S D) (marshal : Command → Option D)
    (unmarshal : D → Option Command) where
  decided-last :
      (k : String) (ls : List (Log D)) (l : Log D) (v : Option String)
      → effect_of k (unmarshal l.content) ≡ some v
      → decided unmarshal k (ls ++ l ∷ []) ≡ some v
  decided-last k [] l v h = h
  decided-last k (x ∷ ls) l v h = rw (decided-last k ls l v h) refl

  node_id-apply : (l : Log D) (f : Fsm) → (apply unmarshal l f).1.node_id ≡ f.node_id
  unfolding apply
  node_id-apply l f = elim (Option-cases (unmarshal l.content)) [
    | inl broken ↦ rw (broken, apply) refl
    | inr (cmd, read) ↦ rw (read, apply) refl
  ]

  node_id-apply_all :
      (ls : List (Log D)) (f : Fsm) → (apply_all unmarshal ls f).0.node_id ≡ f.node_id
  unfolding apply_all
  node_id-apply_all [] f = refl
  node_id-apply_all (l ∷ ls) f = node_id-apply_all ls (apply unmarshal l f).1 ∙ node_id-apply l f

  -- An accepted command was written and proposed.
  submit-accepted :
      (cmd : Command) (s : S) (i : ℕ)
      → (submit raft marshal cmd s).0 ≡ accepted i
      → (content : D) × (marshal cmd ≡ some content)
        × ((raft.propose content s).0 ≡ some i)
        × ((submit raft marshal cmd s).1 ≡ (raft.propose content s).1)
  unfolding submit
  submit-accepted cmd s i done = elim (Option-cases (marshal cmd)) [
    | inl broken ↦ absurd (ground (arith, done, broken))
    | inr (content, written) ↦
        (content, written, ground (arith, done, written), ground (arith, done, written))
  ]

  submit-get :
      (cmd : Command) (s : S) (i : ℕ) (v : Option String)
      → Commits raft unmarshal
      → IsJson marshal unmarshal
      → effect cmd.key cmd ≡ some v
      → (submit raft marshal cmd s).0 ≡ accepted i
      → (get cmd.key (raft.fsm (submit raft marshal cmd s).1) ≡ v)
        × ((raft.fsm (submit raft marshal cmd s).1).node_id ≡ (raft.fsm s).node_id)
  submit-get cmd s i v commits json does done =
      let (content, written, index, next) = submit-accepted cmd s i done in
      let (ls, l, same, after) = commits.applies content s i index in
      let read : effect_of cmd.key (unmarshal l.content) ≡ some v =
        rw (same, json.reads cmd content written) does in
      rw (next, after)
        (
          get-apply_all unmarshal cmd.key (ls ++ l ∷ []) (raft.fsm s)
              ∙ rw (decided-last cmd.key ls l v read) refl,
          node_id-apply_all (ls ++ l ∷ []) (raft.fsm s),
        )

  handle_command-accepted :
      (command : KvRequest → Command) (req : KvRequest) (s : S) (i : ℕ)
      → (handle_command raft marshal command (some req) s).0 ≡ accepted i
      → ((req.key == "") ≡ false)
        × ((submit raft marshal (command req) s).0 ≡ accepted i)
        × ((handle_command raft marshal command (some req) s).1
            ≡ (submit raft marshal (command req) s).1)
  unfolding handle_command
  handle_command-accepted command req s i done = elim (Bool-cases (req.key == "")) [
    | inl empty ↦ absurd (ground (arith, done, empty))
    | inr full ↦ (full, ground (arith, done, full), rw full refl)
  ]

  handle_get-value :
      (k : String) (s : S) {v : Option String} {node : String}
      → (k == "") ≡ false
      → get k (raft.fsm s) ≡ v
      → (raft.fsm s).node_id ≡ node
      → handle_get raft k s ≡ found k (or_default v "") (is_some v) node
  unfolding handle_get
  handle_get-value k s full value same = rw (full, value, same) refl

  handle_get-handle_command :
      (command : KvRequest → Command) (req : KvRequest) (s : S) (i : ℕ) (v : Option String)
      → Commits raft unmarshal
      → IsJson marshal unmarshal
      → (command req).key ≡ req.key
      → effect (command req).key (command req) ≡ some v
      → (handle_command raft marshal command (some req) s).0 ≡ accepted i
      → handle_get raft req.key (handle_command raft marshal command (some req) s).1
        ≡ found req.key (or_default v "") (is_some v) (raft.fsm s).node_id
  handle_get-handle_command command req s i v commits json same_key does done =
      let (full, submitted, next) = handle_command-accepted command req s i done in
      let (value, same) = submit-get (command req) s i v commits json does submitted in
      rw next (
        handle_get-value req.key (submit raft marshal (command req) s).1 full
          (subst (λ k. get k (raft.fsm (submit raft marshal (command req) s).1) ≡ v) same_key value)
          same)

  -- A key whose put was accepted reads, on the node that accepted it, as the value that was put, and one
  -- whose delete was accepted as not there.
  pub handle_get-handle_put :
      (k v : String) (s s' : S) (i j : ℕ)
      → Commits raft unmarshal
      → IsJson marshal unmarshal
      → (handle_put raft marshal (some (record { key = k; value = v })) s).0 ≡ accepted i
      → (handle_delete raft marshal (some (record { key = k; value = v })) s').0 ≡ accepted j
      → (handle_get raft k (handle_put raft marshal (some (record { key = k; value = v })) s).1
          ≡ found k v true (raft.fsm s).node_id)
        × (handle_get raft k
              (handle_delete raft marshal (some (record { key = k; value = v })) s').1
            ≡ found k "" false (raft.fsm s').node_id)
  unfolding handle_put handle_delete
  handle_get-handle_put k v s s' i j commits json put deleted = (
    handle_get-handle_command (λ req. record { type = cmd_put; key = req.key; value = req.value })
        (record { key = k; value = v }) s i (some v) commits json refl (rw (beq_refl k) refl) put,
    handle_get-handle_command (λ req. record { type = cmd_del; key = req.key; value = "" })
        (record { key = k; value = v }) s' j none commits json refl (rw (beq_refl k) refl) deleted,
  )
