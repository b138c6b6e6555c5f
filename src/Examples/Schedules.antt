-- ===== src/Examples/Schedules.antt =====
-- internal/adminauth/pgstore/events.go: a room with one event, and a second that is made.
use waiting_room.Base.{
  ◌≡◌, ◌≤◌, refl, ap, subst, match_some, Text, arith, true, [], ◌∷◌, none, some, codes, text_eq,
  keep, any, lookup, insert, Distinct, ok,
}
use waiting_room.Control.Events.{
  EventState, EventInput, Event, Method, Body, Rows, valid_input, overlaps, next_event_mode,
  read_events, place_event, next_event, change_event,
}
use waiting_room.Control.Events.Schedule.{change_event-AreApart}
use waiting_room.Control.Events.Intervals.{AreApart}
use waiting_room.Base.Int.{pos}
use waiting_room.Control.Runtime.{Runtime}
use waiting_room.Control.Events.Tick.{
  RoomMetrics, DeliveryView, over_rooms, over_nodes, safe_drain, active_event, advanced,
  finish_drain, tick_room,
}
use waiting_room.Control.Events.Off.{IsDrained, tick_room-IsDrained}
use waiting_room.Control.Events.Stages.{rank, Keeps, next_event_mode_catch_up}

abbrev first : Event
first = record {
  room_id = codes "sale";
  prequeue_at = 100;
  admit_at = 200;
  drain_at = 300;
  state = EventState.scheduled;
}

abbrev table : Rows
table = (codes "one", first) ∷ []

abbrev second : EventInput
second = record { prequeue_at = 300; admit_at = 400; drain_at = 500 }

abbrev made : Rows
made =
    (codes "one", first)
    ∷ (
      codes "two",
      record {
        room_id = codes "sale";
        prequeue_at = 300;
        admit_at = 400;
        drain_at = 500;
        state = EventState.scheduled;
      },
    )
    ∷ []

accepted :
    change_event
      (λ r. some (true, true))
      Method.post
      none
      (some (codes "two"))
      (codes "sale")
      (Body.input second)
      50
      table
    ≡ ok made
unfolding change_event read_events next_event place_event valid_input overlaps lookup insert text_eq
    keep any
accepted = refl

is_new : (x : Text) → some (codes "two") ≡ some x → lookup x table ≡ none
unfolding lookup text_eq
is_new x e = subst (λ y. lookup y table ≡ none) (ap (λ o. match_some o [] (λ y. y)) e) refl

change_event-AreApart_example : Distinct made × AreApart made
unfolding lookup text_eq
change_event-AreApart_example =
    change_event-AreApart (λ r. some (true, true)) Method.post none (some (codes "two"))
      (codes "sale") (Body.input second) 50 table made (refl, tt) refl (tt, tt) is_new accepted

next_event_mode_catch_up_example :
    (next_event_mode (record first { state = (next_event_mode first 150).1 }) 350
      ≡ next_event_mode first 350)
    × (rank (next_event_mode first 150).0 ≤ rank (next_event_mode first 350).0)
    × Keeps first.state (next_event_mode first 350)
next_event_mode_catch_up_example = next_event_mode_catch_up first 150 350 (omega arith)

abbrev runtime : Runtime
runtime = record {
  revision = pos 4;
  mode = codes "DRAINING";
  limits = record {
    max_active_admission_leases = pos 10;
    admissions_per_minute = pos 10;
    admission_ttl_seconds = pos 60;
  };
  epoch = 1;
  event_state = codes "running";
  recovery_until = pos 0;
}

abbrev metrics : RoomMetrics
metrics = record {
  room_id = codes "sale";
  revision = pos 4;
  epoch = 1;
  mode = codes "DRAINING";
  waiting = pos 0;
  ready = pos 0;
  origin_healthy = true;
  arrival_window_ready = true;
  arrivals_five_minutes = pos 20;
  recovery_until = pos 0;
}

abbrev applied : DeliveryView
applied = record {
  state = codes "applied";
  nodes =
      record { id = codes "coordinator"; rooms = metrics ∷ [] }
      ∷ record { id = codes "gateway"; rooms = metrics ∷ [] }
      ∷ [];
}

abbrev running_event : Event
running_event = record first { state = EventState.running }

switched_off :
    (tick_room applied (codes "sale") true runtime ((codes "one", running_event) ∷ []) 350).0.mode
    ≡ codes "OFF"
unfolding tick_room active_event advanced finish_drain safe_drain over_nodes over_rooms
    next_event_mode text_eq
switched_off = refl

tick_room-IsDrained_example : IsDrained applied (codes "sale") runtime
tick_room-IsDrained_example =
    tick_room-IsDrained applied (codes "sale") true runtime ((codes "one", running_event) ∷ []) 350
      (λ e. cc) switched_off
