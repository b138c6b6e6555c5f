-- ===== src/Control/Events/Tick.antt =====
-- internal/adminauth/pgstore/events.go: what Tick does for a room, and safeDrain. The events are in
-- the order of readEvents; the result is the runtime and the state that is written for the active
-- event, with its identifier. The signature of the deliveries and the audit are not part of it.
use waiting_room.Base.{
  ℕ, ◌*◌, Bool, true, false, not, ◌&&◌, ◌||◌, List, [], ◌∷◌, Option, none, some, ◌==◌,
  if◌then◌else◌, Text, codes, text_eq, match_some,
}
use waiting_room.Base.Int.{ℤ, pos, eq_ℤ, leb_ℤ, succ_ℤ, pos_part}
use waiting_room.Control.Runtime.{Runtime}
use waiting_room.Control.Events.{
  EventState, Event, Stage, Rows, is_live, is_paused, next_event_mode,
}

pub record RoomMetrics : Type 0 where
  pub room_id : Text
  pub revision : ℤ
  pub epoch : ℕ
  pub mode : Text
  pub waiting : ℤ
  pub ready : ℤ
  pub origin_healthy : Bool
  pub arrival_window_ready : Bool
  pub arrivals_five_minutes : ℤ
  pub recovery_until : ℤ

pub record NodeView : Type 0 where
  pub id : Text
  pub rooms : List RoomMetrics

pub record DeliveryView : Type 0 where
  pub state : Text
  pub nodes : List NodeView

-- The metrics are the room's, of the runtime in hand, and report that it drains.
abbrev pub is_current : Text → Runtime → RoomMetrics → Bool
is_current room r m =
    text_eq m.room_id room
    && text_eq m.mode (codes "DRAINING")
    && eq_ℤ m.revision r.revision
    && m.epoch == r.epoch

abbrev pub queue_drained : RoomMetrics → Bool
queue_drained m = eq_ℤ m.waiting (pos 0) && eq_ℤ m.ready (pos 0) && eq_ℤ m.recovery_until (pos 0)

-- The product of the code is of a positive number.
abbrev pub origin_ready : Runtime → RoomMetrics → Bool
origin_ready r m =
    m.origin_healthy
    && m.arrival_window_ready
    && leb_ℤ m.arrivals_five_minutes (pos (pos_part r.limits.admissions_per_minute * 5))

-- One round of the inner loop: queueOK and originOK.
abbrev pub round : Text → Runtime → Text → RoomMetrics → Bool × Bool → Bool × Bool
round room r node m (queue, origin) = if not (is_current room r m) then (queue, origin) else (
  if text_eq node (codes "coordinator") then queue_drained m else queue,
  if text_eq node (codes "gateway") then origin_ready r m else origin,
)

unfoldable pub over_rooms : Text → Runtime → Text → List RoomMetrics → Bool × Bool → Bool × Bool
over_rooms room r node [] found = found
over_rooms room r node (m ∷ ms) found = over_rooms room r node ms (round room r node m found)

unfoldable pub over_nodes : Text → Runtime → List NodeView → Bool × Bool → Bool × Bool
over_nodes room r [] found = found
over_nodes room r (n ∷ ns) found = over_nodes room r ns (over_rooms room r n.id n.rooms found)

unfoldable pub safe_drain : DeliveryView → Text → Runtime → Bool
safe_drain view room r =
    let found = over_nodes room r view.nodes (false, false) in
    if not (text_eq view.state (codes "applied")) then false else found.0 && found.1

-- The first event that is neither cancelled nor completed.
unfoldable pub active_event : Rows → Option (Text × Event)
active_event [] = none
active_event (e ∷ es) = let rest = active_event es in if is_live e.1.state then some e else rest

abbrev pub mode_name : Stage → Text
mode_name Stage.unchanged = []
mode_name Stage.hold = codes "HOLD"
mode_name Stage.auto = codes "AUTO"
mode_name Stage.draining = codes "DRAINING"

abbrev pub changes : Stage → Bool
changes Stage.unchanged = false
changes _ = true

abbrev pub is_running : EventState → Bool
is_running EventState.running = true
is_running _ = false

-- A stage that changes the mode comes with the state "running".
unfoldable pub advanced : Runtime → Event → ℕ → Runtime × Option EventState
advanced r e now =
    let (stage, state) = next_event_mode e now in
    if changes stage
      && (not (text_eq (mode_name stage) r.mode)
          || not (is_running e.state)
          || not (text_eq r.event_state (codes "running")))
    then (record r { mode = mode_name stage; event_state = codes "running" }, some state)
    else (r, none)

abbrev pub advance : Runtime → Option (Text × Event) → ℕ → Runtime × Option EventState
advance r none now = (r, none)
advance r (some e) now = advanced r e.1 now

abbrev pub paused : Option (Text × Event) → Bool
paused none = false
paused (some e) = is_paused e.1.state

-- The runtime switched off, and the event completed unless it is paused.
unfoldable pub finish_drain :
    DeliveryView
    → Text
    → Option (Text × Event)
    → Runtime × Option EventState
    → Runtime × Option EventState
finish_drain view room active (r, state) =
    if text_eq r.mode (codes "DRAINING") && safe_drain view room r
    then (
      record r {
        mode = codes "OFF";
        event_state = if paused active then codes "paused_by_override" else codes "none";
      },
      match_some active state
          (λ e. if is_paused e.1.state then state else some EventState.completed),
    )
    else (r, state)

-- A runtime differs from the one before in its mode or in its event's state.
abbrev pub revised : Runtime → Runtime → Runtime
revised old new =
    if text_eq old.mode new.mode && text_eq old.event_state new.event_state
    then new
    else record new { revision = succ_ℤ new.revision }

unfoldable pub tick_room :
    DeliveryView → Text → Bool → Runtime → Rows → ℕ → Runtime × Option EventState
tick_room view room active_room r events now =
    if not active_room
    then (r, none)
    else let active = active_event events in
      let (r', state) = finish_drain view room active (advance r active now) in
      (revised r r', state)
