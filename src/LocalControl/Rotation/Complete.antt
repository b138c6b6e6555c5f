-- ===== src/LocalControl/Rotation/Complete.antt =====
-- internal/localcontrol/rotation.go: what a call of RotateKeys that succeeds leaves.
use waiting_room.Base.{
  ◌≡◌, ◌≢◌, ◌⊎◌, inl, inr, refl, arith, Bool, true, false, not, ◌&&◌, ◌||◌, List, Option, none,
  some, if_cases, any, Result, ok, err,
}
use waiting_room.Base.Int.{ℤ, eq_ℤ}
use waiting_room.Keyring.{Key, Set, validate, digest, owner, present, control, gateway, coordinator}
use waiting_room.LocalControl.Rotation.{
  Operation, Error, File, Disk, Files, Database, Clock, Report, rotate, load_rotation, acks_of,
  emergency_of, rotation_report,
}
use waiting_room.Auth.Store.{Commit}
use waiting_room.LocalControl.Rotation.Calls.{
  Role, roles, outcome, later, on_write, distribute, Outcome, complete, finish, changed_disk,
  operated, operate, without_journal, on_journal, first_disk, is_legacy, is_status, is_stage,
  is_unknown, is_missing, legacy_report, record_operation, bound, rotate_keys,
}
use waiting_room.LocalControl.Rotation.Identity.{State, Write, Crypto, load_identity}
use waiting_room.LocalControl.Rotation.Journal.{Leaves, distribute-Leaves}
use waiting_room.LocalControl.Rotation.Distribution.{
  In, IsGiven, OnSuccess, distribute-IsGiven, on_write_cases,
}

pub absent {ℓ} : {A : Type ℓ} (o : Option A) → present o ≡ false → o ≡ none
absent none h = refl
absent (some e) h = absurd (cc)

-- What a call that returns a report leaves: a valid journal with the report's digest, its keys in each
-- role's file, which have that digest, and the row of its generation.
abbrev pub IsComplete : Crypto → Outcome → Type 0
IsComplete c (f, db, err e) = Unit
IsComplete c (f, db, ok report) =
    (d : Disk) × (f.journal ≡ File.holds d)
    × (validate c.ed d.keys owner ≡ none)
    × (report.digest ≡ digest c.hash d.keys)
    × ((r : Role) → IsGiven d.keys f r)
    × (any (λ o. eq_ℤ o.generation d.keys.generation) db.key_operations ≡ true)

pub eq_ℤ_refl : (a : ℤ) → eq_ℤ a a ≡ true
eq_ℤ_refl a = ground arith

pub recorded :
    (c : Crypto) (d : Disk) (op : Operation) (db : Database)
    → any (λ o. eq_ℤ o.generation d.keys.generation) (record_operation c d op db).key_operations
      ≡ true
unfolding record_operation any
recorded c d op db =
    if_cases
      (λ (x : Database). any (λ o. eq_ℤ o.generation d.keys.generation) x.key_operations ≡ true)
      (any (λ o. eq_ℤ o.generation d.keys.generation) db.key_operations) (λ h. h)
      (λ h. ground (arith, eq_ℤ_refl d.keys.generation))

pub report_digest :
    (c : Crypto) (s : Set) → (rotation_report c.ed c.hash s 0).digest ≡ digest c.hash s
unfolding rotation_report
report_digest c s = refl

module _ (c : Crypto) (st : State) (op : Operation) (d : Disk) (ws : List Write) (commits : Commit)
    (f : Files) (db : Database) where
  pub complete-IsComplete :
      (o : Files × Option Error)
      → validate c.ed d.keys owner ≡ none
      → OnSuccess (λ g. (g.journal ≡ File.holds d) × ((r : Role) → IsGiven d.keys g r)) o
      → IsComplete c (complete c op d commits db o)
  complete-IsComplete (g, some e) v h = tt
  complete-IsComplete (g, none) v h =
      elim commits as (λ k. IsComplete c (complete c op d k db (g, none))) [
        | Commit.committed ↦ (d, h.0, v, report_digest c d.keys, h.1, recorded c d op db)
        | Commit.aborted ↦ tt
        | Commit.lost ↦ tt
      ]

  pub both_succeed :
      (o : Files × Option Error)
      → Leaves (λ j. j ≡ File.holds d) o
      → OnSuccess (λ g. (r : Role) → IsGiven d.keys g r) o
      → OnSuccess (λ g. (g.journal ≡ File.holds d) × ((r : Role) → IsGiven d.keys g r)) o
  both_succeed (g, none) p q = (p, q)
  both_succeed (g, some e) p q = tt

  pub finish-IsComplete : IsComplete c (finish c st op d ws commits f db)
  unfolding finish
  finish-IsComplete =
      if_cases (IsComplete c) (present (validate c.ed d.keys owner)) (λ h. tt)
        (λ h.
          let f' : Files = record f { journal = File.holds d } in
          let rest = distribute c st d.keys roles (later ws) f' in
          let left =
            distribute-Leaves (λ j. j ≡ File.holds d) c st d.keys roles (later ws) f' refl in
          let given = distribute-IsGiven c st d.keys roles (later ws) f' every in
          complete-IsComplete (on_write (outcome ws) f f' rest)
            (absent (validate c.ed d.keys owner) h)
            (on_write_cases
              (OnSuccess (λ g. (g.journal ≡ File.holds d) × ((r : Role) → IsGiven d.keys g r)))
              (outcome ws) f f' rest tt tt (both_succeed rest left given)))
    where
      every : (r : Role) → In r roles ⊎ IsGiven d.keys (record f { journal = File.holds d }) r
      every Role.control_role = inl (inl refl)
      every Role.gateway_role = inl (inr (inl refl))
      every Role.coordinator_role = inl (inr (inr (inl refl)))

pub status_of : (op : Operation) → is_status op ≡ true → op ≡ Operation.status
status_of Operation.status h = refl
status_of Operation.stage h = cc
status_of Operation.activate h = cc
status_of Operation.retire h = cc
status_of Operation.revoke h = cc
status_of Operation.unknown h = cc

-- What holds of every end of a call holds of the call.
module _ (c : Crypto) (st : State) (op : Operation) (t : Clock) (generated : Option Key)
    (ws : List Write) (commits : Commit) (f : Files) (db : Database) (P : Outcome → Type 0)
    (failed : (e : Error) → P (f, db, err e))
    (reported : op ≡ Operation.status → (report : Report) → P (f, db, ok report))
    (finished : (d : Disk) → P (finish c st op d ws commits f db)) where
  pub operated_cases :
      (d : Disk) (r : Result Error (Set × Bool)) → P (operated c st op ws commits d f db r)
  operated_cases d (err e) = failed e
  operated_cases d (ok (s, changed)) = finished (changed_disk c d s changed)

  pub operate_cases : (d : Disk) → P (operate c st op t generated ws commits d f db)
  unfolding operate
  operate_cases d =
      let acks = acks_of c.ed c.hash db d.keys t.acks_at in
      let emergency = emergency_of c.ed c.hash db d.keys acks t.audit_at in
      if_cases P (is_status op)
        (λ h.
          reported (status_of op h)
            (record (rotation_report c.ed c.hash d.keys acks) { emergency_ready = emergency }))
        (λ h. operated_cases d (rotate d.keys op acks emergency t.now generated))

  pub without_journal_cases : P (without_journal c st op t generated ws commits f db)
  unfolding without_journal
  without_journal_cases =
      if_cases P (is_status op) (λ h. reported (status_of op h) legacy_report)
        (λ h.
          if_cases P (not (is_stage op)) (λ i. failed Error.stage_first)
            (λ i.
              if_cases P
                (is_legacy (load_identity c control f.control_file)
                  && is_legacy (load_identity c gateway f.gateway_file)
                  && is_legacy (load_identity c coordinator f.coordinator_file))
                (λ j. operate_cases (first_disk st)) (λ j. failed Error.restore_journal)))

  pub rotate_keys_cases : P (rotate_keys c st op t generated ws commits f db)
  unfolding rotate_keys
  rotate_keys_cases =
      if_cases P (is_unknown op || not (bound st db)) (λ h. failed Error.invalid)
        (λ h. journal (load_rotation c.ed c.hash st.binding f.journal))
    where
      journal : (r : Result Error Disk) → P (on_journal c st op t generated ws commits f db r)
      journal (ok d) = operate_cases d
      journal (err e) = if_cases P (is_missing e) (λ h. without_journal_cases) (λ h. failed e)

-- A call of RotateKeys that changes the keys, or repeats the last change, and returns a report has
-- left: a journal whose keys are valid for the owner and have the digest that is reported; in the
-- identity file of each of the three roles, the keys that the role is given of those in the journal;
-- and a row for their generation.
pub rotate_keys-IsComplete :
    (c : Crypto) (st : State) (op : Operation) (t : Clock) (generated : Option Key)
    (ws : List Write) (commits : Commit) (f : Files) (db : Database)
    → op ≢ Operation.status
    → IsComplete c (rotate_keys c st op t generated ws commits f db)
rotate_keys-IsComplete c st op t generated ws commits f db n =
    rotate_keys_cases c st op t generated ws commits f db (IsComplete c) (λ e. tt)
      (λ e report. absurd (n e)) (λ d. finish-IsComplete c st op d ws commits f db)
