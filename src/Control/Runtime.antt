-- ===== src/Control/Runtime.antt =====
-- internal/control/runtime.go: the runtime of a room, the signed delivery of a configuration with
-- its runtimes, and the queue's configuration that they give. A negative number becomes 0 in the
-- queue's configuration, which `New` refuses as it refuses a negative one.
pub mod Queues
use waiting_room.Base.{
  ℕ, ◌*◌, ◌+◌, Bool, true, false, not, ◌&&◌, ◌||◌, List, [], ◌∷◌, ◌++◌, Option, none, some, ◌==◌,
  leb, ltb, if◌then◌else◌, Text, codes, text_eq, decimal, length,
}
use waiting_room.Base.Int.{ℤ, pos, pos_part, ltb_ℤ, leb_ℤ}
use waiting_room.Control.Config.{
  Config, Room, Limits, Library, Error, elements, is_nil, validate, validate_limits, high_scale,
}
use waiting_room.Queue.Model
use waiting_room.Queue.Model.{default_config}

pub record Runtime : Type 0 where
  pub revision : ℤ
  pub mode : Text
  pub limits : Limits
  pub epoch : ℕ
  pub event_state : Text
  pub recovery_until : ℤ

pub record RoomRuntime : Type 0 where
  pub room_id : Text
  pub runtime : Runtime

pub record Delivery : Type 0 where
  pub config : Config
  pub runtimes : List RoomRuntime

-- 2^53 - 2
abbrev pub safe_limit : ℕ
safe_limit = 9007199254740990

abbrev known_mode : Text → Bool
known_mode m =
    text_eq m (codes "OFF")
    || text_eq m (codes "AUTO")
    || text_eq m (codes "HOLD")
    || text_eq m (codes "DRAINING")
    || text_eq m (codes "RECOVERY_HOLD")

abbrev known_event_state : Text → Bool
known_event_state s =
    text_eq s (codes "none")
    || text_eq s (codes "scheduled")
    || text_eq s (codes "running")
    || text_eq s (codes "paused_by_override")

unfoldable pub validate_runtime : Runtime → Text → Option Error
validate_runtime r profile =
    if ltb_ℤ r.recovery_until (pos 0)
      || leb_ℤ (pos safe_limit) r.recovery_until
      || ltb_ℤ r.revision (pos 1)
      || leb_ℤ (pos safe_limit) r.revision
      || ltb r.epoch 1
      || leb safe_limit r.epoch
      || not (is_nil (validate_limits r.limits profile))
    then some Error.invalid
    else if not (known_mode r.mode)
    then some Error.invalid
    else if not (known_event_state r.event_state)
    then some Error.invalid
    else none

-- The loop over rooms and runtimes at one index.
unfoldable pub runtimes_ok : Text → List Room → List RoomRuntime → Bool
runtimes_ok profile [] vs = true
runtimes_ok profile (r ∷ rs) [] = false
runtimes_ok profile (r ∷ rs) (v ∷ vs) =
    not (
      not (text_eq v.room_id r.id)
      || not (is_nil (validate_runtime v.runtime profile))
      || (not r.active && not (text_eq v.runtime.mode (codes "OFF"))))
    && runtimes_ok profile rs vs

unfoldable pub validate_delivery : Library → Delivery → Option Error
validate_delivery lib d =
    if not (is_nil (validate lib d.config))
      || not (length d.runtimes == length (elements d.config.rooms))
    then some Error.invalid
    else if not (runtimes_ok d.config.profile (elements d.config.rooms) d.runtimes)
    then some Error.invalid
    else none

-- A room with no runtime at its index, where the code panics, is not found.
unfoldable pub find_room : Text → List Room → List RoomRuntime → Option (Room × Runtime)
find_room id [] vs = none
find_room id (r ∷ rs) [] = none
find_room id (r ∷ rs) (v ∷ vs) =
    let rest = find_room id rs vs in if text_eq r.id id then some (r, v.runtime) else rest

abbrev pub find : Delivery → Text → Option (Room × Runtime)
find d id = find_room id (elements d.config.rooms) d.runtimes

unfoldable pub initial_runtime : Room → Runtime
initial_runtime room = record {
  revision = pos 1;
  mode = if room.active then codes "HOLD" else codes "OFF";
  limits = room.limits;
  epoch = 1;
  event_state = codes "none";
  recovery_until = pos 0;
}

unfoldable pub queue_config : Runtime → Text → Room → Model.Config
queue_config r profile room =
    let high = text_eq profile high_scale in
    record default_config {
      visitor_cap = if high then 100000 else default_config.visitor_cap;
      idempotency_cap = if high then 200000 else default_config.idempotency_cap;
      lease_cap = pos_part r.limits.max_active_admission_leases;
      rate = pos_part r.limits.admissions_per_minute;
      admission_ttl = pos_part r.limits.admission_ttl_seconds * 1000;
      idle_ttl = pos_part room.queue_policy.ticket_idle_ttl_seconds * 1000;
      ticket_ttl = pos_part room.queue_policy.ticket_max_ttl_seconds * 1000;
      ready_ttl = pos_part room.queue_policy.ready_ttl_seconds * 1000;
    }
