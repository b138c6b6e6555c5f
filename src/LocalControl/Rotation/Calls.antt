-- ===== src/LocalControl/Rotation/Calls.antt =====
-- internal/localcontrol/rotation.go: RotateKeys as a call.
use waiting_room.Base.{
  Bool, true, false, not, ◌&&◌, ◌||◌, List, [], ◌∷◌, Option, none, some, if◌then◌else◌, Text, codes,
  text_eq, any, Result, ok, err,
}
use waiting_room.Base.Int.{pos, eq_ℤ}
use waiting_room.Keyring.{Key, Set, validate, digest, control, coordinator, gateway, owner, present}
use waiting_room.Auth.Store.{Commit}
use waiting_room.LocalControl.Rotation.{
  Operation, Error, Disk, File, NodeIdentity, Files, Database, Clock, Report, rotate, acks_of,
  emergency_of, rotation_report, load_rotation,
}
use waiting_room.LocalControl.Rotation.Identity.{State, Write, Crypto, load_identity, scoped}

pub data Role : Type 0 where
  control_role gateway_role coordinator_role : Role

abbrev pub name_of : Role → Text
name_of Role.control_role = control
name_of Role.gateway_role = gateway
name_of Role.coordinator_role = coordinator

abbrev pub roles : List Role
roles = Role.control_role ∷ Role.gateway_role ∷ Role.coordinator_role ∷ []

abbrev pub file_of : Files → Role → File NodeIdentity
file_of f Role.control_role = f.control_file
file_of f Role.gateway_role = f.gateway_file
file_of f Role.coordinator_role = f.coordinator_file

abbrev pub put_file : Files → Role → NodeIdentity → Files
put_file f Role.control_role n = record f { control_file = File.holds n }
put_file f Role.gateway_role n = record f { gateway_file = File.holds n }
put_file f Role.coordinator_role n = record f { coordinator_file = File.holds n }

-- The outcome of the next write; one that is not foreseen succeeds.
abbrev pub outcome : List Write → Write
outcome [] = Write.written
outcome (w ∷ ws) = w

abbrev pub later : List Write → List Write
later [] = []
later (w ∷ ws) = ws

-- After a write of `f'` over `f`: go on with `rest`, or return.
abbrev pub on_write : Write → Files → Files → Files × Option Error → Files × Option Error
on_write Write.written f f' rest = rest
on_write Write.published f f' rest = (f', some Error.unavailable)
on_write Write.failed f f' rest = (f, some Error.unavailable)

abbrev pub on_load :
    Result Error NodeIdentity → Files → (NodeIdentity → Files × Option Error) → Files × Option Error
on_load (err e) f rest = (f, some e)
on_load (ok n) f rest = rest n

-- The loop over the roles, which returns at the first error.
unfoldable pub distribute :
    Crypto → State → Set → List Role → List Write → Files → Files × Option Error
distribute c st s [] ws f = (f, none)
distribute c st s (r ∷ rs) ws f = on_load (load_identity c (name_of r) (file_of f r)) f (λ n.
    let f' = put_file f r (scoped st s (name_of r) n) in
    on_write (outcome ws) f f' (distribute c st s rs (later ws) f'))

-- The rows of a completed operation; a generation that is recorded already adds none.
unfoldable pub record_operation : Crypto → Disk → Operation → Database → Database
record_operation c d op db =
    if any (λ o. eq_ℤ o.generation d.keys.generation) db.key_operations then db else record db {
      key_operations =
          record {
            generation = d.keys.generation;
            phase = d.keys.phase;
            digest = digest c.hash d.keys;
          }
          ∷ db.key_operations;
      key_audit =
          record {
            action = op;
            before_digest = d.before;
            after_digest = digest c.hash d.keys;
            revision = d.keys.generation;
          }
          ∷ db.key_audit;
    }

abbrev pub Outcome : Type 0
Outcome = Files × Database × Result Error Report

-- The end of a call whose files are distributed, or not all of them.
abbrev pub complete : Crypto → Operation → Disk → Commit → Database → Files × Option Error → Outcome
complete c op d commits db (f, some e) = (f, db, err e)
complete c op d commits db (f, none) = elim commits [
  | Commit.committed ↦ (f, record_operation c d op db, ok (rotation_report c.ed c.hash d.keys 0))
  | Commit.aborted ↦ (f, db, err Error.unavailable)
  | Commit.lost ↦ (f, record_operation c d op db, err Error.unavailable)
]

-- From the changed keys on: validation, the journal, the roles' files, the rows and the commit.
unfoldable pub finish :
    Crypto → State → Operation → Disk → List Write → Commit → Files → Database → Outcome
finish c st op d ws commits f db =
    if present (validate c.ed d.keys owner)
    then (f, db, err Error.invalid)
    else let f' = record f { journal = File.holds d } in
      complete c op d commits db
        (on_write (outcome ws) f f' (distribute c st d.keys roles (later ws) f'))

abbrev pub is_status : Operation → Bool
is_status Operation.status = true
is_status _ = false

abbrev pub is_stage : Operation → Bool
is_stage Operation.stage = true
is_stage _ = false

abbrev pub is_unknown : Operation → Bool
is_unknown Operation.unknown = true
is_unknown _ = false

abbrev pub is_missing : Error → Bool
is_missing Error.missing_file = true
is_missing _ = false

-- The digest of the keys before is the journal's only if the keys changed.
abbrev pub changed_disk : Crypto → Disk → Set → Bool → Disk
changed_disk c d keys changed = record {
  binding = d.binding;
  keys = keys;
  before = if changed then digest c.hash d.keys else d.before;
}

abbrev pub operated :
    Crypto
    → State
    → Operation
    → List Write
    → Commit
    → Disk
    → Files
    → Database
    → Result Error (Set × Bool)
    → Outcome
operated c st op ws commits d f db (err e) = (f, db, err e)
operated c st op ws commits d f db (ok (keys, changed)) =
    finish c st op (changed_disk c d keys changed) ws commits f db

-- The switch over the operation, with the digest of the keys before it.
unfoldable pub operate :
    Crypto
    → State
    → Operation
    → Clock
    → Option Key
    → List Write
    → Commit
    → Disk
    → Files
    → Database
    → Outcome
operate c st op t generated ws commits d f db =
    let acks = acks_of c.ed c.hash db d.keys t.acks_at in
    let emergency = emergency_of c.ed c.hash db d.keys acks t.audit_at in
    if is_status op
    then (
      f,
      db,
      ok (record (rotation_report c.ed c.hash d.keys acks) { emergency_ready = emergency }),
    )
    else operated c st op ws commits d f db (rotate d.keys op acks emergency t.now generated)

-- A role whose file loads and has no keys.
abbrev pub is_legacy : Result Error NodeIdentity → Bool
is_legacy (ok n) = not (present n.keys)
is_legacy (err e) = false

abbrev zero_digest : Text
zero_digest = codes "0000000000000000000000000000000000000000000000000000000000000000"

-- The journal of an installation that has none, from its first keys.
abbrev pub first_disk : State → Disk
first_disk st = record {
  binding = st.binding;
  keys = record {
    generation = pos 0;
    phase = [];
    current = st.legacy_keys;
    previous = none;
    next = none;
  };
  before = zero_digest;
}

unfoldable pub legacy_report : Report
legacy_report = record {
  phase = codes "legacy";
  generation = pos 0;
  digest = [];
  activate_at = pos 0;
  retire_after = pos 0;
  acknowledged = 0;
  emergency_ready = false;
}

unfoldable pub without_journal :
    Crypto
    → State
    → Operation
    → Clock
    → Option Key
    → List Write
    → Commit
    → Files
    → Database
    → Outcome
without_journal c st op t generated ws commits f db =
    if is_status op
    then (f, db, ok legacy_report)
    else if not (is_stage op)
    then (f, db, err Error.stage_first)
    else if is_legacy (load_identity c control f.control_file)
        && is_legacy (load_identity c gateway f.gateway_file)
        && is_legacy (load_identity c coordinator f.coordinator_file)
    then operate c st op t generated ws commits (first_disk st) f db
    else (f, db, err Error.restore_journal)

abbrev pub bound : State → Database → Bool
bound st db = elim db.key_binding [ none ↦ false | some b ↦ text_eq b st.binding ]

abbrev pub on_journal :
    Crypto
    → State
    → Operation
    → Clock
    → Option Key
    → List Write
    → Commit
    → Files
    → Database
    → Result Error Disk
    → Outcome
on_journal c st op t generated ws commits f db (ok d) =
    operate c st op t generated ws commits d f db
on_journal c st op t generated ws commits f db (err e) =
    if is_missing e then without_journal c st op t generated ws commits f db else (f, db, err e)

unfoldable pub rotate_keys :
    Crypto
    → State
    → Operation
    → Clock
    → Option Key
    → List Write
    → Commit
    → Files
    → Database
    → Outcome
rotate_keys c st op t generated ws commits f db =
    if is_unknown op || not (bound st db)
    then (f, db, err Error.invalid)
    else on_journal c st op t generated ws commits f db
        (load_rotation c.ed c.hash st.binding f.journal)
