-- ===== src/Control/Events.antt =====
-- internal/control/runtime.go: events of a room and their stages, and internal/adminauth/pgstore's
-- events.go: ChangeEvent over the table of events, from the room's runtime on. Instants are numbers
-- of nanoseconds since Go's zero time. The command around it, the signature and the audit are not
-- part of this file; the identifier drawn for a new event is an argument.
pub mod Intervals
pub mod Schedule
pub mod Stages
pub mod Tick
pub mod Off
use waiting_room.Base.{
  ℕ, ◌+◌, Bool, true, false, not, ◌&&◌, ◌||◌, List, [], ◌∷◌, Option, none, some, ◌==◌, leb, ltb,
  if◌then◌else◌, Text, codes, text_eq, text_lt, length, any, keep, lookup, insert, map, Result, ok,
  err, match_some,
}
use waiting_room.Base.Int.{succ_ℤ}
use waiting_room.Control.Config.{Room}
use waiting_room.Control.Runtime.{Runtime}

-- `other` stands for every string that is no state.
pub data EventState : Type 0 where
  scheduled running paused_by_override cancelled completed other : EventState

pub record EventInput : Type 0 where
  pub prequeue_at : ℕ
  pub admit_at : ℕ
  pub drain_at : ℕ

-- An event without its identifier, which is its key in the table.
pub record Event : Type 0 where
  pub room_id : Text
  pub prequeue_at : ℕ
  pub admit_at : ℕ
  pub drain_at : ℕ
  pub state : EventState

-- 366 days.
abbrev pub horizon : ℕ
horizon = 31622400000000000

-- EventInput.Validate, true for no error.
unfoldable pub valid_input : EventInput → ℕ → Bool
valid_input e now = not (
    ltb e.prequeue_at now
    || not (ltb e.prequeue_at e.admit_at)
    || not (ltb e.admit_at e.drain_at)
    || ltb (now + horizon) e.drain_at)

abbrev pub is_live : EventState → Bool
is_live EventState.cancelled = false
is_live EventState.completed = false
is_live _ = true

unfoldable pub overlaps : Event → EventInput → Bool
overlaps e o = is_live e.state && ltb e.prequeue_at o.drain_at && ltb o.prequeue_at e.drain_at

-- The stages of an event: the empty mode, and the three that the code sets.
pub data Stage : Type 0 where
  unchanged hold auto draining : Stage

abbrev pub may_advance : EventState → Bool
may_advance EventState.paused_by_override = false
may_advance EventState.cancelled = false
may_advance EventState.completed = false
may_advance _ = true

unfoldable pub next_event_mode : Event → ℕ → Stage × EventState
next_event_mode e now =
    if not (may_advance e.state) || ltb now e.prequeue_at
    then (Stage.unchanged, e.state)
    else if not (ltb now e.drain_at)
    then (Stage.draining, EventState.running)
    else if not (ltb now e.admit_at)
    then (Stage.auto, EventState.running)
    else (Stage.hold, EventState.running)

pub data Problem : Type 0 where
  method_not_allowed not_found revision_mismatch event_inactive invalid_request room_inactive :
      Problem
  invalid_event event_overlap event_capacity_exceeded unavailable : Problem

-- The request: its method, the match of If-Match with the runtime's tag, and its body as read: an empty
-- object (or no bytes), an input, or neither.
pub data Method : Type 0 where
  post put delete other_method : Method

pub data Body : Type 0 where
  no_bytes empty_object malformed : Body
  input : EventInput → Body

abbrev pub max_events : ℕ
max_events = 1000

abbrev pub Rows : Type 0
Rows = List (Text × Event)

abbrev pub in_room : Text → Text × Event → Bool
in_room room e = text_eq e.1.room_id room

-- readEvents without its order, or `none` beyond its bound.
unfoldable pub read_events : Rows → Text → Option Rows
read_events table room =
    let events = keep (in_room room) table in
    if ltb max_events (length events) then none else some events

abbrev pub allowed : Option Text → Method → Bool
allowed none Method.post = true
allowed none _ = false
allowed (some id) Method.other_method = false
allowed (some id) _ = true

-- An event of another identifier that overlaps the input.
abbrev pub clashes : Text → EventInput → Text × Event → Bool
clashes id i e = not (text_eq e.0 id) && overlaps e.1 i

abbrev pub event_of : Text → EventInput → Event
event_of room i = record {
  room_id = room;
  prequeue_at = i.prequeue_at;
  admit_at = i.admit_at;
  drain_at = i.drain_at;
  state = EventState.scheduled;
}

-- POST of a new event or PUT of one that is there: `id` is the event's, or empty.
unfoldable pub place_event :
    Option Text → Option Text → Text → Body → ℕ → Rows → Result Problem (Text × Event)
place_event id drawn room (Body.input i) now events =
    let own = match_some id [] (λ x. x) in
    if not (valid_input i now)
    then err Problem.invalid_event
    else if any (clashes own i) events
    then err Problem.event_overlap
    else elim id [
      | some x ↦ ok (x, event_of room i)
      | none ↦
          if leb max_events (length events)
          then err Problem.event_capacity_exceeded
          else match_some drawn (err Problem.unavailable) (λ x. ok (x, event_of room i))
    ]
place_event id drawn room _ now events = err Problem.invalid_request

abbrev pub is_paused : EventState → Bool
is_paused EventState.paused_by_override = true
is_paused _ = false

-- POST to an event that is there resumes it.
unfoldable pub resume_event : Text → Event → Body → ℕ → Result Problem (Text × Event)
resume_event id e Body.empty_object now =
    if not (is_paused e.state) || not (ltb now e.drain_at)
    then err Problem.event_inactive
    else ok (id, record e { state = EventState.scheduled })
resume_event id e _ now = err Problem.invalid_request

unfoldable pub cancel_event : Text → Event → Body → Result Problem (Text × Event)
cancel_event id e Body.malformed = err Problem.invalid_request
cancel_event id e (Body.input i) = err Problem.invalid_request
cancel_event id e _ = ok (id, record e { state = EventState.cancelled })

abbrev pub active_room : Bool → Result Problem (Text × Event) → Result Problem (Text × Event)
active_room active r = if not active then err Problem.room_inactive else r

-- The change of an event that is there and live.
abbrev pub change_found :
    Method
    → Text
    → Event
    → Option Text
    → Text
    → Bool
    → Body
    → ℕ
    → Rows
    → Result Problem (Text × Event)
change_found Method.delete id e drawn room active body now events = cancel_event id e body
change_found Method.post id e drawn room active body now events =
    active_room active (resume_event id e body now)
change_found _ id e drawn room active body now events =
    active_room active (place_event (some id) drawn room body now events)

-- The event that a request changes or makes, among the room's.
unfoldable pub next_event :
    Method
    → Option Text
    → Option Text
    → Text
    → Bool
    → Body
    → ℕ
    → Rows
    → Result Problem (Text × Event)
next_event method none drawn room active body now events =
    active_room active (place_event none drawn room body now events)
next_event method (some id) drawn room active body now events =
    match_some (lookup id events) (err Problem.event_inactive) (λ e.
      if not (is_live e.state)
      then err Problem.event_inactive
      else change_found method id e drawn room active body now events)

-- The room of the request: an event's own, if one is named.
abbrev pub room_of : Rows → Option Text → Text → Option Text
room_of table none room = some room
room_of table (some id) room = match_some (lookup id table) none (λ e. some e.room_id)

-- The upsert, which keeps the room of a row that is there.
abbrev pub upserted : Rows → Text → Event → Event
upserted table id e = match_some (lookup id table) e (λ old. record e { room_id = old.room_id })

abbrev pub stored : Rows → Result Problem (Text × Event) → Result Problem Rows
stored table (err p) = err p
stored table (ok e) = ok (insert e.0 (upserted table e.0 e.1) table)

-- ChangeEvent's change of the table. `find` is Delivery.Find of a room, with whether If-Match is the
-- tag of its runtime.
unfoldable pub change_event :
    (find : Text → Option (Bool × Bool))
    → Method
    → Option Text
    → Option Text
    → Text
    → Body
    → ℕ
    → Rows
    → Result Problem Rows
change_event find method id drawn room body now table =
    if not (allowed id method)
    then err Problem.method_not_allowed
    else match_some (room_of table id room) (err Problem.not_found) (λ r.
      match_some (find r) (err Problem.not_found) (λ f.
        if not f.1
        then err Problem.revision_mismatch
        else match_some (read_events table r) (err Problem.unavailable)
            (λ events. stored table (next_event method id drawn r f.0 body now events))))
