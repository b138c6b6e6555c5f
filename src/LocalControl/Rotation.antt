-- ===== src/LocalControl/Rotation.antt =====
-- internal/localcontrol/rotation.go: RotateKeys over the owner's journal, the roles' identity files
-- (with LoadIdentity of identity.go) and the tables that it reads and writes. Instants are
-- nanoseconds since 1970. A file is its decoded value; the key that generateKey makes, the clock
-- readings, the number of file writes that succeed and the outcome of the commit are arguments.
pub mod Identity
pub mod Calls
pub mod Journal
pub mod Overlap
pub mod Distribution
pub mod Complete
pub mod Repair
use waiting_room.Base.{
  ℕ, zero, suc, ◌+◌, ◌*◌, ◌/◌, Bool, true, false, not, ◌&&◌, ◌||◌, List, [], ◌∷◌, ◌++◌, Option,
  none, some, ◌==◌, leb, ltb, if◌then◌else◌, Text, codes, text_eq, length, any, count, Result, ok,
  err,
}
use waiting_room.Base.Int.{ℤ, pos, pos_part, succ_ℤ, eq_ℤ, leb_ℤ, ltb_ℤ, ◌+ℤ◌}
use waiting_room.Keyring.{
  Key, Set, Ed25519, validate, for_role, digest, overlap, control, coordinator, gateway, owner,
  present,
}

pub data Operation : Type 0 where
  status stage activate retire revoke unknown : Operation

pub data Error : Type 0 where
  invalid stage_first restore_journal still_active staged_not_acknowledged clock_rollback : Error
  active_not_acknowledged not_emergency still_covered invalid_identity missing_file unavailable :
      Error

pub record Disk : Type 0 where
  pub binding : Text
  pub keys : Set
  pub before : Text

-- A file: not there, not readable, or its decoded value.
pub data File (A : Type 0) : Type 0 where
  missing : File A
  unreadable : File A
  holds : A → File A

pub record NodeIdentity : Type 0 where
  pub keys : Option Set
  pub source_key : Text
  pub version : ℤ
  pub installation : Text
  pub binding : Text
  pub node : Text
  pub ca : Text
  pub certificate : Text
  pub private_key : Text
  pub config_public : Text
  pub admission_public : Text
  pub config_private : Text
  pub admission_private : Text
  pub replay_key : Text
  pub return_key : Text

pub record Files : Type 0 where
  pub journal : File Disk
  pub control_file : File NodeIdentity
  pub gateway_file : File NodeIdentity
  pub coordinator_file : File NodeIdentity

pub record Ack : Type 0 where
  pub node_id : Text
  pub generation : ℤ
  pub digest : Text
  pub observed_at : ℕ

pub record DeliveryNode : Type 0 where
  pub node_id : Text
  pub generation : ℤ

pub record Audit : Type 0 where
  pub actor_role : Text
  pub action : Text
  pub result : Text
  pub occurred_at : ℕ

pub record KeyOperation : Type 0 where
  pub generation : ℤ
  pub phase : Text
  pub digest : Text

-- The owner's audit row of a completed operation.
pub record KeyAudit : Type 0 where
  pub action : Operation
  pub before_digest : Text
  pub after_digest : Text
  pub revision : ℤ

pub record Database : Type 0 where
  pub key_binding : Option Text
  pub key_acks : List Ack
  pub control_nodes : List DeliveryNode
  pub delivery_generation : Option ℤ
  pub control_audit : List Audit
  pub key_operations : List KeyOperation
  pub key_audit : List KeyAudit

-- The readings of the clock: with the binding, by the count of ACKs, by the search of the audit.
pub record Clock : Type 0 where
  pub now : ℕ
  pub acks_at : ℕ
  pub audit_at : ℕ

pub record Report : Type 0 where
  pub phase : Text
  pub generation : ℤ
  pub digest : Text
  pub activate_at : ℤ
  pub retire_after : ℤ
  pub acknowledged : ℕ
  pub emergency_ready : Bool

-- `UnixMilli`, and `Overlap.Milliseconds()`.
abbrev pub unix_milli : ℕ → ℕ
unix_milli t = t / 1000000

abbrev pub overlap_ms : ℕ
overlap_ms = overlap / 1000000

-- 30 seconds, 2 minutes and 5 minutes.
abbrev pub margin : ℕ
margin = 30000000000

abbrev ack_window : ℕ
ack_window = 120000000000

abbrev emergency_window : ℕ
emergency_window = 300000000000

abbrev pub is_phase : Set → Text → Bool
is_phase s phase = text_eq s.phase phase

abbrev pub staging : Set → Option Key → Result Error (Set × Bool)
staging s none = err Error.unavailable
staging s (some k) =
    ok (record s { next = some k; generation = succ_ℤ s.generation; phase = codes "staged" }, true)

abbrev pub activated : Set → Key → ℕ → Set
activated s next since = record s {
  previous = some s.current;
  current = record next { since = pos since };
  next = none;
  generation = succ_ℤ s.generation;
  phase = codes "active";
}

abbrev pub activation : Set → ℕ → Option Key → Result Error (Set × Bool)
activation s now none = err Error.invalid
activation s now (some next) =
    let since = unix_milli (now + margin) in
    if leb_ℤ (pos since) s.current.since
    then err Error.clock_rollback
    else ok (activated s next since, true)

abbrev pub retired : Set → Set
retired s = record s { previous = none; generation = succ_ℤ s.generation; phase = codes "stable" }

-- The operation's change of the keys, and whether there is one. In the phase "staged" the next key is
-- there if the keys are valid; where it is not, the code panics.
unfoldable pub rotate : Set → Operation → ℕ → Bool → ℕ → Option Key → Result Error (Set × Bool)
rotate s Operation.status acks emergency now generated = ok (s, false)
rotate s Operation.unknown acks emergency now generated = err Error.invalid
rotate s Operation.stage acks emergency now generated =
    if is_phase s (codes "active")
    then err Error.still_active
    else if is_phase s (codes "staged")
    then ok (s, false)
    else staging s generated
rotate s Operation.activate acks emergency now generated =
    if is_phase s (codes "active")
    then ok (s, false)
    else if not (is_phase s (codes "staged")) || not (acks == 2)
    then err Error.staged_not_acknowledged
    else activation s now s.next
rotate s Operation.retire acks emergency now generated =
    if is_phase s (codes "stable")
    then ok (s, false)
    else if not (is_phase s (codes "active")) || not (acks == 2)
    then err Error.active_not_acknowledged
    else if ltb_ℤ (pos (unix_milli now)) (s.current.since +ℤ pos overlap_ms)
    then err Error.still_covered
    else ok (retired s, true)
rotate s Operation.revoke acks emergency now generated =
    if is_phase s (codes "stable")
    then ok (s, false)
    else if not (is_phase s (codes "active")) || not (acks == 2)
    then err Error.active_not_acknowledged
    else if not emergency
    then err Error.not_emergency
    else ok (retired s, true)

-- The join of an ACK with its node and the delivery.
unfoldable pub acknowledges : Database → Text → Set → ℕ → Ack → Bool
acknowledges db digest' s at a =
    eq_ℤ a.generation s.generation
    && text_eq a.digest digest'
    && leb a.observed_at at
    && ltb at (a.observed_at + ack_window)
    && elim db.delivery_generation [
      | none ↦ false
      | some g ↦ any (λ n. text_eq n.node_id a.node_id && eq_ℤ n.generation g) db.control_nodes
    ]

unfoldable pub emergency_row : Set → ℕ → Audit → Bool
emergency_row s at a =
    text_eq a.actor_role (codes "admin")
    && text_eq a.action (codes "runtime.new_epoch")
    && text_eq a.result (codes "accepted")
    && leb (pos_part s.current.since * 1000000) a.occurred_at
    && ltb at (a.occurred_at + emergency_window)
    && leb a.occurred_at at

module _ (ed : Ed25519) (hash : Set → Text) where
  -- The number of ACKs, which is counted only if the keys have a generation.
  unfoldable pub acks_of : Database → Set → ℕ → ℕ
  acks_of db s at =
      if ltb_ℤ (pos 0) s.generation
      then count (acknowledges db (digest hash s) s at) db.key_acks
      else 0

  unfoldable pub emergency_of : Database → Set → ℕ → ℕ → Bool
  emergency_of db s acks at =
      if is_phase s (codes "active") && acks == 2
      then any (emergency_row s at) db.control_audit
      else false

  unfoldable pub rotation_report : Set → ℕ → Report
  rotation_report s acks = record {
    phase = s.phase;
    generation = s.generation;
    digest = digest hash s;
    activate_at = if present s.previous then s.current.since else pos 0;
    retire_after = if present s.previous then s.current.since +ℤ pos overlap_ms else pos 0;
    acknowledged = acks;
    emergency_ready = false;
  }

  unfoldable pub load_rotation : Text → File Disk → Result Error Disk
  load_rotation binding (File.missing) = err Error.missing_file
  load_rotation binding (File.unreadable) = err Error.unavailable
  load_rotation binding (File.holds d) =
      if not (text_eq d.binding binding)
        || present (validate ed d.keys owner)
        || not (length d.before == 64)
      then err Error.invalid
      else ok d
