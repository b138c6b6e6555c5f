-- ===== src/LocalControl/Rotation/Repair.antt =====
-- internal/localcontrol/rotation.go: the repetition of a call of RotateKeys that failed.
use waiting_room.Base.{
  ℕ, ◌≡◌, refl, sym, subst, arith, Bool, true, false, List, [], Option, none, some, if_cases, Text,
  codes, text_eq, text_eq_iff, text_eq_refl, length, ok,
}
use waiting_room.Keyring.{Key, Set, validate, owner, present}
use waiting_room.LocalControl.Rotation.{
  Operation, Error, File, Disk, Files, Database, Clock, rotate, load_rotation, acks_of,
  emergency_of, rotation_report,
}
use waiting_room.Auth.Store.{Commit}
use waiting_room.LocalControl.Rotation.Calls.{
  Role, roles, file_of, outcome, later, on_write, distribute, Outcome, complete, finish, operate,
  is_status, is_unknown, bound, rotate_keys,
}
use waiting_room.LocalControl.Rotation.Identity.{State, Write, Crypto}
use waiting_room.LocalControl.Rotation.Journal.{finish-Leaves}
use waiting_room.LocalControl.Rotation.Distribution.{
  AllLoad, Loads, distribute-AllLoad, distribute_completes, on_write_cases,
}
use waiting_room.LocalControl.Rotation.Complete.{absent, rotate_keys_cases}

journal_apart :
    (c : Crypto) (f : Files) (d : Disk) (r : Role)
    → Loads c r (file_of f r)
    → Loads c r (file_of (record f { journal = File.holds d }) r)
journal_apart c f d Role.control_role k = k
journal_apart c f d Role.gateway_role k = k
journal_apart c f d Role.coordinator_role k = k

finish-AllLoad :
    (c : Crypto) (st : State) (op : Operation) (d : Disk) (ws : List Write) (commits : Commit)
    (f : Files) (db : Database)
    → length st.public_source ≡ 32
    → AllLoad c f
    → AllLoad c (finish c st op d ws commits f db).0
unfolding finish
finish-AllLoad c st op d ws commits f db l h =
    if_cases (λ (o : Outcome). AllLoad c o.0) (present (validate c.ed d.keys owner)) (λ i. h)
      (λ i.
        let f' : Files = record f { journal = File.holds d } in
        let h' : AllLoad c f' = λ r. journal_apart c f d r (h r) in
        let rest = distribute c st d.keys roles (later ws) f' in
        let all' =
          distribute-AllLoad c st d.keys (absent (validate c.ed d.keys owner) i) l roles (later ws)
            f' h' in
        ended (on_write (outcome ws) f f' rest) (
          on_write_cases (λ (o : Files × Option Error). AllLoad c o.0) (outcome ws) f f' rest h h'
            all'))
  where
    ended : (o : Files × Option Error) → AllLoad c o.0 → AllLoad c (complete c op d commits db o).0
    ended (g, some e) k = k
    ended (g, none) k = elim commits as (λ x. AllLoad c (complete c op d x db (g, none)).0) [
      | Commit.committed ↦ k
      | Commit.aborted ↦ k
      | Commit.lost ↦ k
    ]

-- Where the source key of the gateway has 32 bytes and LoadIdentity accepts each role's identity file,
-- it does so after any call of RotateKeys, also after one that fails between two of its writes.
pub rotate_keys-AllLoad :
    (c : Crypto) (st : State) (op : Operation) (t : Clock) (generated : Option Key)
    (ws : List Write) (commits : Commit) (f : Files) (db : Database)
    → length st.public_source ≡ 32
    → AllLoad c f
    → AllLoad c (rotate_keys c st op t generated ws commits f db).0
rotate_keys-AllLoad c st op t generated ws commits f db l h =
    rotate_keys_cases c st op t generated ws commits f db (λ o. AllLoad c o.0) (λ e. h)
      (λ e report. h) (λ d. finish-AllLoad c st op d ws commits f db l h)

-- The phase that an operation leads to is that of the keys.
abbrev pub IsReached : Operation → Set → Type 0
IsReached Operation.stage s = s.phase ≡ codes "staged"
IsReached Operation.activate s = s.phase ≡ codes "active"
IsReached Operation.retire s = s.phase ≡ codes "stable"
IsReached Operation.revoke s = s.phase ≡ codes "stable"
IsReached _ s = ⊥

mutates : (op : Operation) (s : Set) → IsReached op s → is_unknown op ≡ false
mutates Operation.stage s h = refl
mutates Operation.activate s h = refl
mutates Operation.retire s h = refl
mutates Operation.revoke s h = refl
mutates Operation.status s h = absurd h
mutates Operation.unknown s h = absurd h

asks : (op : Operation) (s : Set) → IsReached op s → is_status op ≡ false
asks Operation.stage s h = refl
asks Operation.activate s h = refl
asks Operation.retire s h = refl
asks Operation.revoke s h = refl
asks Operation.status s h = absurd h
asks Operation.unknown s h = absurd h

rotate_reached :
    (s : Set) (op : Operation) (acks : ℕ) (emergency : Bool) (now : ℕ) (generated : Option Key)
    → IsReached op s
    → rotate s op acks emergency now generated ≡ ok (s, false)
unfolding rotate text_eq
rotate_reached s Operation.stage acks emergency now generated h = rw h refl
rotate_reached s Operation.activate acks emergency now generated h = rw h refl
rotate_reached s Operation.retire acks emergency now generated h = rw h refl
rotate_reached s Operation.revoke acks emergency now generated h = rw h refl
rotate_reached s Operation.status acks emergency now generated h = absurd h
rotate_reached s Operation.unknown acks emergency now generated h = absurd h

bound_by : (st : State) (db : Database) → db.key_binding ≡ some st.binding → bound st db ≡ true
bound_by st db h = rw h (text_eq_refl st.binding)

accepted_journal :
    (c : Crypto) (binding : Text) (d : Disk)
    → d.binding ≡ binding
    → validate c.ed d.keys owner ≡ none
    → length d.before ≡ 64
    → load_rotation c.ed c.hash binding (File.holds d) ≡ ok d
unfolding load_rotation
accepted_journal c binding d e v l = ground (arith, text_eq_iff d.binding binding)

-- A finish where nothing fails.
finish_report :
    (c : Crypto) (st : State) (op : Operation) (d : Disk) (f : Files) (db : Database)
    → validate c.ed d.keys owner ≡ none
    → length st.public_source ≡ 32
    → AllLoad c f
    → (finish c st op d [] Commit.committed f db).2 ≡ ok (rotation_report c.ed c.hash d.keys 0)
unfolding finish
finish_report c st op d f db v l h =
    let f' : Files = record f { journal = File.holds d } in
    let h' : AllLoad c f' = λ r. journal_apart c f d r (h r) in
    rw v (
      ended (distribute c st d.keys roles [] f') (distribute_completes c st d.keys v l roles f' h'))
  where
    ended :
        (o : Files × Option Error)
        → o.1 ≡ none
        → (complete c op d Commit.committed db o).2 ≡ ok (rotation_report c.ed c.hash d.keys 0)
    ended (g, none) e = refl
    ended (g, some x) e = absurd (cc)

operate_repairs :
    (c : Crypto) (st : State) (op : Operation) (t : Clock) (generated : Option Key) (f : Files)
    (db : Database) (d : Disk)
    → validate c.ed d.keys owner ≡ none
    → length st.public_source ≡ 32
    → f.journal ≡ File.holds d
    → AllLoad c f
    → IsReached op d.keys
    → ((operate c st op t generated [] Commit.committed d f db).2
        ≡ ok (rotation_report c.ed c.hash d.keys 0))
      × ((operate c st op t generated [] Commit.committed d f db).0.journal ≡ File.holds d)
unfolding operate
operate_repairs c st op t generated f db d v l j h reached =
    let acks = acks_of c.ed c.hash db d.keys t.acks_at in
    let emergency = emergency_of c.ed c.hash db d.keys acks t.audit_at in
    rw (asks op d.keys reached, rotate_reached d.keys op acks emergency t.now generated reached)
      (
        finish_report c st op d f db v l h,
        finish-Leaves (λ x. x ≡ File.holds d) c st op d [] Commit.committed f db j refl,
      )

-- Let the journal be the installation's, valid, and in the phase that an operation leads to, as after
-- a call of that operation that failed behind the write of the journal; let each role's file be one
-- that LoadIdentity accepts, in whatever state the failure left it. Then the operation, called again
-- and with no write failing, returns the report of the journal's keys and keeps them in the journal:
-- it makes no second change.
pub rotate_keys_repairs :
    (c : Crypto) (st : State) (op : Operation) (t : Clock) (generated : Option Key) (f : Files)
    (db : Database) (d : Disk)
    → db.key_binding ≡ some st.binding
    → length st.public_source ≡ 32
    → f.journal ≡ File.holds d
    → d.binding ≡ st.binding
    → validate c.ed d.keys owner ≡ none
    → length d.before ≡ 64
    → AllLoad c f
    → IsReached op d.keys
    → ((rotate_keys c st op t generated [] Commit.committed f db).2
        ≡ ok (rotation_report c.ed c.hash d.keys 0))
      × ((rotate_keys c st op t generated [] Commit.committed f db).0.journal ≡ File.holds d)
unfolding rotate_keys
rotate_keys_repairs c st op t generated f db d b l j same v before h reached =
    let loaded : load_rotation c.ed c.hash st.binding f.journal ≡ ok d =
      subst (λ (x : File Disk). load_rotation c.ed c.hash st.binding x ≡ ok d) (sym j)
        (accepted_journal c st.binding d same v before) in
    rw (mutates op d.keys reached, bound_by st db b, loaded)
      (operate_repairs c st op t generated f db d v l j h reached)
