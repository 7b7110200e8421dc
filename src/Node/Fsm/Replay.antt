-- ===== src/Node/Fsm/Replay.antt =====
-- infra/node/fsm.go: what a node's store is after a log, with and without a snapshot.
use atividade_consenso_raft.Base.{
  String, true, Option, none, some, List, [], ◌∷◌, ◌++◌, Map, get?, get?-insert, get?-remove,
  string_eq, ◌==◌, ◌&&◌, or_default, ◌≡◌, refl, ap, ◌∙◌, sym, arith, Option-cases, inl, inr,
  if◌then◌else◌,
}
use atividade_consenso_raft.Node.Fsm.{
  Command, Log, Fsm, cmd_put, cmd_del, execute, apply, apply_all, snapshot, persist, restore, get,
}

-- What a command does to a key: nothing, or gives it a value, or takes it away.
abbrev pub effect : String → Command → Option (Option String)
effect k cmd =
    if cmd.type == cmd_put && cmd.key == k
    then some (some cmd.value)
    else if cmd.type == cmd_del && cmd.key == k
    then some none
    else none

abbrev pub effect_of : String → Option Command → Option (Option String)
effect_of k none = none
effect_of k (some cmd) = effect k cmd

get?-execute :
    (k : String) (cmd : Command) (store : Map String String)
    → get? k (execute cmd store) ≡ or_default (effect k cmd) (get? k store)
unfolding execute
get?-execute k cmd store = ground (
  arith,
  get?-insert cmd.key k cmd.value store,
  get?-remove cmd.key k store,
  string_eq.test_iff cmd.type cmd_put,
  string_eq.test_iff cmd.type cmd_del,
)

-- A snapshot that was written can be read, and has the values of the store it was made of.
pub record IsCodec {T : Type 0} (encode : Map String String → Option T)
    (decode : T → Option (Map String String)) : Type 0 where
  pub reads :
      (m : Map String String) (t : T)
      → encode m ≡ some t
      → (m' : Map String String) × (decode t ≡ some m') × ((k : String) → get? k m' ≡ get? k m)

module _ {D : Type 0} (unmarshal : D → Option Command) where
  -- The last command in the log on a key decides.
  abbrev pub decided : String → List (Log D) → Option (Option String)
  decided k [] = none
  decided k (l ∷ ls) = elim (decided k ls) [
    | none ↦ effect_of k (unmarshal l.content)
    | some v ↦ some v
  ]

  get?-apply :
      (k : String) (l : Log D) (f : Fsm)
      → get? k (apply unmarshal l f).1.store
        ≡ or_default (effect_of k (unmarshal l.content)) (get? k f.store)
  unfolding apply
  get?-apply k l f = elim (Option-cases (unmarshal l.content)) [
    | inl broken ↦ rw (broken, apply) refl
    | inr (cmd, read) ↦ rw (read, apply) (get?-execute k cmd f.store)
  ]

  -- After a log a key has the value that the last command on it in the log gave it, or none if that
  -- command took it away, and if there is no command on it what it had before. Entries that are no
  -- command, and commands of an unknown type, change nothing.
  pub get-apply_all :
      (k : String) (ls : List (Log D)) (f : Fsm)
      → get k (apply_all unmarshal ls f).0 ≡ or_default (decided k ls) (get k f)
  unfolding get apply_all
  get-apply_all k [] f = refl
  get-apply_all k (l ∷ ls) f =
      get-apply_all k ls (apply unmarshal l f).1
      ∙ ap (or_default (decided k ls)) (get?-apply k l f)
      ∙ later (decided k ls)
    where
      later :
          (d : Option (Option String))
          → or_default d (or_default (effect_of k (unmarshal l.content)) (get? k f.store))
            ≡ or_default
                (elim d [ none ↦ effect_of k (unmarshal l.content) | some v ↦ some v ])
                (get? k f.store)
      later none = refl
      later (some v) = refl

  apply_all-append :
      (xs ys : List (Log D)) (f : Fsm)
      → (apply_all unmarshal (xs ++ ys) f).0
        ≡ (apply_all unmarshal ys (apply_all unmarshal xs f).0).0
  unfolding apply_all
  apply_all-append [] ys f = refl
  apply_all-append (x ∷ xs) ys f = apply_all-append xs ys (apply unmarshal x f).1

  -- Nodes that have the same values go on to have the same values.
  pub apply_all-same :
      (ls : List (Log D)) (f g : Fsm) (k : String)
      → get k f ≡ get k g
      → get k (apply_all unmarshal ls f).0 ≡ get k (apply_all unmarshal ls g).0
  apply_all-same ls f g k same =
      get-apply_all k ls f ∙ ap (or_default (decided k ls)) same ∙ sym (get-apply_all k ls g)

  -- A node that restores a snapshot made after the first part of a log, and then applies the rest, can
  -- restore it and has the values of the node that applied all of the log, whatever it had before.
  pub restore-apply_all :
      {T : Type 0} (encode : Map String String → Option T) (decode : T → Option (Map String String))
      (xs ys : List (Log D)) (f g : Fsm) (t : T) (k : String)
      → IsCodec encode decode
      → persist encode (snapshot (apply_all unmarshal xs f).0) ≡ some t
      → let (restored, g') = restore decode t g in
        (restored ≡ true)
        × (get k (apply_all unmarshal ys g').0 ≡ get k (apply_all unmarshal (xs ++ ys) f).0)
  unfolding restore persist snapshot
  restore-apply_all encode decode xs ys f g t k codec written =
      let (m, read, same) = codec.reads (apply_all unmarshal xs f).0.store t written in
      rw (read, restore)
        (
          refl,
          apply_all-same ys (record g { store = m }) (apply_all unmarshal xs f).0 k
                (unfold get in same k)
              ∙ sym (ap (get k) (apply_all-append xs ys f)),
        )
