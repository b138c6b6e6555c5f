-- ===== src/Trust/Gate.antt =====
-- internal/configtrust/snapshot.go: `Gate`, its clock quarantine and its latch. A method returns
-- the gate after it; each takes the Unix time in seconds that `now` would sample.
pub mod Cases
pub mod Safety
pub mod Quarantine
pub mod Publication
pub mod Latch
use waiting_room.Base.{
  ℕ, ◌-◌, Bool, true, false, ◌&&◌, ◌||◌, not, List, [], ◌∷◌, ◌++◌, Option, none, some, leb, ltb,
  ◌==◌, if◌then◌else◌, Text, codes, text_eq, length, all, lookup, Result, ok, err,
}
use waiting_room.Trust.Codec.{
  Codec, Snapshot, Envelope, ClockRecovery, structural, strict, safe_name, domain,
  max_snapshot_bytes, public_key_size,
}

pub data Error : Type 0 where
  invalid unavailable rollback persistence : Error

-- `failureReason`
pub data Reason : Type 0 where
  fine clock_rolled_back storage_failed storage_invalid : Reason

-- What a `Store` answers to `Load`.
pub data Loaded : Type 0 where
  empty : Loaded
  unreadable : Loaded
  bytes : Text → Loaded

pub record Gate : Type 0 where
  pub keys : List (Text × Text)
  pub installation : Text
  pub minimum : ℕ
  pub current : Snapshot
  pub raw : Text
  pub last_clock : ℕ
  pub clock_hold : Bool
  pub recovery_after : ℕ
  pub failed : Bool
  pub failure_reason : Reason

abbrev pub zero_snapshot : Snapshot
zero_snapshot = record {
  schema_version = 0;
  installation = [];
  generation = 0;
  revision = 0;
  issued_at = 0;
  expires_at = 0;
  kid = [];
  payload = [];
}

abbrev or_nil : Option Text → Text
or_nil none = []
or_nil (some t) = t

-- `validate` is the caller's `Validator`.
module _ (codec : Codec) (validate : Text → Bool) where
  -- The second half of `verify`: the signature and the payload of a decoded snapshot.
  unfoldable pub verify_signed : Gate → Envelope → Snapshot → Result Error Snapshot
  verify_signed g out s =
      let key = or_nil (lookup s.kid g.keys) in
      elim (codec.decode_base64 out.signature) [
        | none ↦ err Error.invalid
        | some sig ↦
            if not (length key == public_key_size)
              || not (text_eq (codec.encode_base64 sig) out.signature)
              || not (codec.verify_signature key (domain ++ out.snapshot) sig)
            then err Error.invalid
            else if not (validate s.payload)
            then err Error.invalid
            else ok s
      ]

  unfoldable pub verify_decoded : Gate → Envelope → Option Snapshot → Result Error Snapshot
  verify_decoded g out none = err Error.invalid
  verify_decoded g out (some s) =
      if not (structural codec s)
        || not (text_eq s.installation g.installation)
        || ltb s.generation g.minimum
      then err Error.invalid
      else verify_signed g out s

  unfoldable pub verify : Gate → Text → Result Error Snapshot
  verify g raw =
      if length raw == 0 || ltb max_snapshot_bytes (length raw)
      then err Error.invalid
      else elim (strict codec.decode_envelope codec.encode_envelope raw) [
        | none ↦ err Error.invalid
        | some out ↦
            verify_decoded g out (strict codec.decode_snapshot codec.encode_snapshot out.snapshot)
      ]

  -- `clock`: the new gate, and whether the clock did not go back.
  unfoldable pub clock : ℕ → Gate → Gate × Bool
  clock now g =
      if ltb now g.last_clock
      then (
        record g {
          clock_hold = true;
          recovery_after = g.last_clock;
          failure_reason = Reason.clock_rolled_back;
        },
        false,
      )
      else (record g { last_clock = now }, true)

  -- `applyLocked` after the snapshot is verified; `saves` says whether `Store.Save` succeeds.
  unfoldable pub accept : Bool → ℕ → Text → Snapshot → Gate → Gate × Result Error (Unit {0})
  accept saves now raw s g =
      if ltb now s.issued_at || leb s.expires_at now
      then (g, err Error.invalid)
      else if ltb s.generation g.current.generation || ltb s.revision g.current.revision
      then (g, err Error.rollback)
      else if g.clock_hold
          && (leb s.generation g.current.generation || ltb s.issued_at g.recovery_after)
      then (g, err Error.unavailable)
      else if s.generation == g.current.generation
      then (g, if text_eq raw g.raw then ok tt else err Error.rollback)
      else if not saves
      then (
        record g { failed = true; failure_reason = Reason.storage_failed },
        err Error.persistence,
      )
      else (
        record g {
          current = s;
          raw = raw;
          clock_hold = false;
          recovery_after = 0;
          failure_reason = Reason.fine;
        },
        ok tt,
      )

  unfoldable pub apply_verified :
      Bool → ℕ → Text → Gate → Result Error Snapshot → Gate × Result Error (Unit {0})
  apply_verified saves now raw g (err e) = (g, err e)
  apply_verified saves now raw g (ok s) = accept saves now raw s g

  unfoldable pub apply : Bool → ℕ → Text → Gate → Gate × Result Error (Unit {0})
  apply saves now raw g =
      if g.failed
      then (g, err Error.unavailable)
      else (let (g', steady) = clock now g in
          if not steady
          then (g', err Error.unavailable)
          else apply_verified saves now raw g' (verify g' raw))

  unfoldable pub current : ℕ → Gate → Gate × Result Error Snapshot
  current now g =
      if g.failed
      then (g, err Error.unavailable)
      else (let (g', steady) = clock now g in
          if not steady
            || g'.clock_hold
            || g'.current.generation == 0
            || ltb now g'.current.issued_at
            || leb g'.current.expires_at now
          then (g', err Error.unavailable)
          else (g', ok g'.current))

  -- `RecoveryRequest`; `none` is its false.
  unfoldable pub recovery_request : Gate → Option ClockRecovery
  recovery_request g =
      if g.failed || not g.clock_hold || g.current.generation == 0
      then none
      else some (record {
        generation = g.current.generation;
        not_before = g.recovery_after;
        digest = codec.digest g.raw;
      })

  -- `Open` once its arguments are checked.
  unfoldable pub load_gate : Gate → Loaded → Gate × Option Error
  load_gate g Loaded.empty = (g, none)
  load_gate g Loaded.unreadable =
      (record g { failed = true; failure_reason = Reason.storage_failed }, some Error.persistence)
  load_gate g (Loaded.bytes raw) = elim (verify g raw) [
    | ok s ↦ (record g { current = s; raw = raw }, none)
    | err e ↦
        (record g { failed = true; failure_reason = Reason.storage_invalid }, some Error.invalid)
  ]

  -- `Open` with a validator and a store; `none` is a nil gate.
  unfoldable pub open_gate : List (Text × Text) → Text → ℕ → Loaded → Option Gate × Option Error
  open_gate keys installation minimum loaded =
      if length keys == 0
        || ltb 8 (length keys)
        || not (safe_name installation)
        || minimum == 0
        || ltb 9007199254740991 minimum
        || not (all (λ e. safe_name e.0 && length e.1 == public_key_size) keys)
      then (none, some Error.invalid)
      else (let (g, e) =
            load_gate
              (record {
                keys = keys;
                installation = installation;
                minimum = minimum;
                current = zero_snapshot;
                raw = [];
                last_clock = 0;
                clock_hold = false;
                recovery_after = 0;
                failed = false;
                failure_reason = Reason.fine;
              })
              loaded in
          (some g, e))

  -- The calls on a gate: `Apply` with the outcome of its save, and `Current`.
  unfoldable pub step : Bool × ℕ × Option Text → Gate → Gate
  step (saves, now, some raw) g = (apply saves now raw g).0
  step (saves, now, none) g = (current now g).0

  unfoldable pub run : List (Bool × ℕ × Option Text) → Gate → Gate
  run [] g = g
  run (c ∷ cs) g = run cs (step c g)
