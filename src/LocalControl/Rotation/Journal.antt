-- ===== src/LocalControl/Rotation/Journal.antt =====
-- internal/localcontrol/rotation.go: what a call leaves in the journal.
use waiting_room.Base.{
  ◌≡◌, arith, false, not, ◌||◌, List, [], ◌∷◌, Option, none, some, ◌==◌, if_cases, Text, text_eq,
  length, Result, ok, err,
}
use waiting_room.Keyring.{Set, Ed25519, validate, owner, present}
use waiting_room.LocalControl.Rotation.{Operation, Error, File, Disk, NodeIdentity, Files, Database}
use waiting_room.Auth.Store.{Commit}
use waiting_room.LocalControl.Rotation.Calls.{
  Role, roles, name_of, file_of, put_file, outcome, later, on_write, on_load, distribute, Outcome,
  complete, finish,
}
use waiting_room.LocalControl.Rotation.Identity.{State, Write, Crypto, load_identity, scoped}

-- What is known of a call's files.
abbrev pub Leaves : (File Disk → Type 0) → Files × Option Error → Type 0
Leaves P o = P o.0.journal

module _ (P : File Disk → Type 0) where
  pub on_write-Leaves :
      (w : Write) (f f' : Files) (rest : Files × Option Error)
      → P f.journal
      → P f'.journal
      → Leaves P rest
      → Leaves P (on_write w f f' rest)
  on_write-Leaves Write.written f f' rest p p' q = q
  on_write-Leaves Write.published f f' rest p p' q = p'
  on_write-Leaves Write.failed f f' rest p p' q = p

  pub on_load-Leaves :
      (o : Result Error NodeIdentity) (f : Files) (rest : NodeIdentity → Files × Option Error)
      → P f.journal
      → ((n : NodeIdentity) → Leaves P (rest n))
      → Leaves P (on_load o f rest)
  on_load-Leaves (err e) f rest p q = p
  on_load-Leaves (ok n) f rest p q = q n

  pub put_file-Leaves :
      (f : Files) (r : Role) (n : NodeIdentity) → P f.journal → P (put_file f r n).journal
  put_file-Leaves f Role.control_role n p = p
  put_file-Leaves f Role.gateway_role n p = p
  put_file-Leaves f Role.coordinator_role n p = p

  pub distribute-Leaves :
      (c : Crypto) (st : State) (s : Set) (rs : List Role) (ws : List Write) (f : Files)
      → P f.journal
      → Leaves P (distribute c st s rs ws f)
  unfolding distribute
  distribute-Leaves c st s [] ws f p = p
  distribute-Leaves c st s (r ∷ rs) ws f p =
      on_load-Leaves (load_identity c (name_of r) (file_of f r)) f
        (λ n.
          let f' = put_file f r (scoped st s (name_of r) n) in
          on_write (outcome ws) f f' (distribute c st s rs (later ws) f'))
        p
        (λ n.
          let f' = put_file f r (scoped st s (name_of r) n) in
          let p' = put_file-Leaves f r (scoped st s (name_of r) n) p in
          on_write-Leaves (outcome ws) f f' (distribute c st s rs (later ws) f') p p'
            (distribute-Leaves c st s rs (later ws) f' p'))

  pub complete-Leaves :
      (c : Crypto) (op : Operation) (d : Disk) (commits : Commit) (db : Database)
      (o : Files × Option Error)
      → Leaves P o
      → P (complete c op d commits db o).0.journal
  complete-Leaves c op d commits db (f, some e) p = p
  complete-Leaves c op d Commit.committed db (f, none) p = p
  complete-Leaves c op d Commit.aborted db (f, none) p = p
  complete-Leaves c op d Commit.lost db (f, none) p = p

  pub finish-Leaves :
      (c : Crypto) (st : State) (op : Operation) (d : Disk) (ws : List Write) (commits : Commit)
      (f : Files) (db : Database)
      → P f.journal
      → P (File.holds d)
      → P (finish c st op d ws commits f db).0.journal
  unfolding finish
  finish-Leaves c st op d ws commits f db p q =
      if_cases (λ (o : Outcome). P o.0.journal) (present (validate c.ed d.keys owner)) (λ h. p)
        (λ h.
          let f' : Files = record f { journal = File.holds d } in
          let rest = distribute c st d.keys roles (later ws) f' in
          complete-Leaves c op d commits db (on_write (outcome ws) f f' rest) (
            on_write-Leaves (outcome ws) f f' rest p q
              (distribute-Leaves c st d.keys roles (later ws) f' q)))

pub accepted_keys :
    (ed : Ed25519) (d : Disk) (binding : Text)
    → (not (text_eq d.binding binding)
        || present (validate ed d.keys owner)
        || not (length d.before == 64))
      ≡ false
    → validate ed d.keys owner ≡ none
accepted_keys ed d binding h = ground arith
