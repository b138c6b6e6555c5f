-- ===== src/Control/Events/Off.antt =====
-- internal/adminauth/pgstore/events.go: when Tick switches a room off.
use waiting_room.Base.{
  ℕ, ◌*◌, ◌≡◌, ◌≢◌, inl, inr, refl, sym, ◌∙◌, subst, arith, Bool, true, false, not, ◌&&◌, ◌||◌,
  Bool-cases, List, [], ◌∷◌, Option, none, some, if◌then◌else◌, if_cases, Text, any, codes, text_eq,
  text_eq_iff,
}
use waiting_room.Base.Int.{pos, pos_part, eq_ℤ, leb_ℤ}
use waiting_room.Control.Runtime.{Runtime}
use waiting_room.Control.Events.{EventState, Event, Stage, Rows, next_event_mode}
use waiting_room.Control.Events.Tick.{
  is_running, RoomMetrics, NodeView, DeliveryView, is_current, queue_drained, origin_ready, round,
  over_rooms, over_nodes, safe_drain, active_event, mode_name, changes, advanced, advance,
  finish_drain, revised, tick_room,
}

-- A report of a node on the room, with the given test.
abbrev pub Reports : Text → Runtime → Text → (RoomMetrics → Bool) → DeliveryView → Type 0
Reports room r node test view =
    any (λ n. text_eq n.id node && any (λ m. is_current room r m && test m) n.rooms) view.nodes
    ≡ true

-- One flag through a loop's rounds: it is overwritten by `d` where the round is current, `c`, and the
-- node the flag's, `t`.
abbrev flag : Bool → Bool → Bool → Bool → Bool
flag c t d q = if c then (if t then d else q) else q

flag_step :
    (q c t d rest : Bool)
    → (flag c t d q || (t && rest)) ≡ true
    → (q || (t && ((c && d) || rest))) ≡ true
flag_step true c t d rest h = refl
flag_step false true true true rest h = refl
flag_step false true true false rest h = h
flag_step false true false d rest h = h
flag_step false false t d rest h = h

or_none : (q t : Bool) → q ≡ true → (q || (t && false)) ≡ true
or_none q t h = ground arith

or_mono : (a b rest : Bool) → (a ≡ true → b ≡ true) → (a || rest) ≡ true → (b || rest) ≡ true
or_mono true b rest f h = rw (f refl) refl
or_mono false true rest f h = refl
or_mono false false rest f h = h

flag_join : (q a rest : Bool) → ((q || a) || rest) ≡ true → (q || (a || rest)) ≡ true
flag_join true a rest h = refl
flag_join false a rest h = h

module _ (room : Text) (r : Runtime) where
  abbrev at_coordinator : Text → Bool
  at_coordinator node = text_eq node (codes "coordinator")

  abbrev at_gateway : Text → Bool
  at_gateway node = text_eq node (codes "gateway")

  round_flags :
      (node : Text) (m : RoomMetrics) (f : Bool × Bool)
      → ((round room r node m f).0
          ≡ flag (is_current room r m) (at_coordinator node) (queue_drained m) f.0)
        × ((round room r node m f).1
            ≡ flag (is_current room r m) (at_gateway node) (origin_ready r m) f.1)
  round_flags node m (q, o) = elim (Bool-cases (is_current room r m)) [
    | inl c ↦ rw c (refl, refl)
    | inr n ↦ rw n (refl, refl)
  ]

  abbrev queue_in : Text → List RoomMetrics → Bool
  queue_in node ms = at_coordinator node && any (λ m. is_current room r m && queue_drained m) ms

  abbrev origin_in : Text → List RoomMetrics → Bool
  origin_in node ms = at_gateway node && any (λ m. is_current room r m && origin_ready r m) ms

  over_rooms_queue :
      (node : Text) (ms : List RoomMetrics) (f : Bool × Bool)
      → (over_rooms room r node ms f).0 ≡ true
      → (f.0 || queue_in node ms) ≡ true
  unfolding over_rooms any
  over_rooms_queue node [] f h = or_none f.0 (at_coordinator node) h
  over_rooms_queue node (m ∷ ms) f h =
      flag_step f.0 (is_current room r m) (at_coordinator node) (queue_drained m)
        (any (λ m. is_current room r m && queue_drained m) ms)
        (subst (λ x. (x || queue_in node ms) ≡ true) (round_flags node m f).0
          (over_rooms_queue node ms (round room r node m f) h))

  over_rooms_origin :
      (node : Text) (ms : List RoomMetrics) (f : Bool × Bool)
      → (over_rooms room r node ms f).1 ≡ true
      → (f.1 || origin_in node ms) ≡ true
  unfolding over_rooms any
  over_rooms_origin node [] f h = or_none f.1 (at_gateway node) h
  over_rooms_origin node (m ∷ ms) f h =
      flag_step f.1 (is_current room r m) (at_gateway node) (origin_ready r m)
        (any (λ m. is_current room r m && origin_ready r m) ms)
        (subst (λ x. (x || origin_in node ms) ≡ true) (round_flags node m f).1
          (over_rooms_origin node ms (round room r node m f) h))

  over_nodes_queue :
      (ns : List NodeView) (f : Bool × Bool)
      → (over_nodes room r ns f).0 ≡ true
      → (f.0 || any (λ n. queue_in n.id n.rooms) ns) ≡ true
  unfolding over_nodes any
  over_nodes_queue [] f h = rw h refl
  over_nodes_queue (n ∷ ns) f h =
      flag_join f.0 (queue_in n.id n.rooms) (any (λ n. queue_in n.id n.rooms) ns) (
        or_mono _ (f.0 || queue_in n.id n.rooms) _ (over_rooms_queue n.id n.rooms f)
          (over_nodes_queue ns (over_rooms room r n.id n.rooms f) h))

  over_nodes_origin :
      (ns : List NodeView) (f : Bool × Bool)
      → (over_nodes room r ns f).1 ≡ true
      → (f.1 || any (λ n. origin_in n.id n.rooms) ns) ≡ true
  unfolding over_nodes any
  over_nodes_origin [] f h = rw h refl
  over_nodes_origin (n ∷ ns) f h =
      flag_join f.1 (origin_in n.id n.rooms) (any (λ n. origin_in n.id n.rooms) ns) (
        or_mono _ (f.1 || origin_in n.id n.rooms) _ (over_rooms_origin n.id n.rooms f)
          (over_nodes_origin ns (over_rooms room r n.id n.rooms f) h))

-- What safeDrain demands of a view.
abbrev pub IsDrained : DeliveryView → Text → Runtime → Type 0
IsDrained view room r =
    (view.state ≡ codes "applied")
    × Reports room r (codes "coordinator")
        (λ m. eq_ℤ m.waiting (pos 0) && eq_ℤ m.ready (pos 0) && eq_ℤ m.recovery_until (pos 0)) view
    × Reports room r (codes "gateway")
        (λ m.
          m.origin_healthy
          && m.arrival_window_ready
          && leb_ℤ m.arrivals_five_minutes (pos (pos_part r.limits.admissions_per_minute * 5)))
        view

safe_drain-IsDrained :
    (view : DeliveryView) (room : Text) (r : Runtime)
    → safe_drain view room r ≡ true
    → IsDrained view room r
unfolding safe_drain
safe_drain-IsDrained view room r h =
    let found = over_nodes room r view.nodes (false, false) in
    let (a, q, o) = parts (text_eq view.state (codes "applied")) found.0 found.1 h in
    (
      (text_eq_iff view.state (codes "applied")).0 a,
      over_nodes_queue room r view.nodes (false, false) q,
      over_nodes_origin room r view.nodes (false, false) o,
    )
  where
    parts :
        (a q o : Bool)
        → (if not a then false else q && o) ≡ true
        → (a ≡ true) × (q ≡ true) × (o ≡ true)
    parts a q o h = (ground arith, ground arith, ground arith)

not_off : (stage : Stage) → mode_name stage ≢ codes "OFF"
not_off Stage.unchanged h = absurd (cc h)
not_off Stage.hold h = absurd (cc h)
not_off Stage.auto h = absurd (cc h)
not_off Stage.draining h = absurd (cc h)

module _ (view : DeliveryView) (room : Text) (r : Runtime) where
  -- What is known of the runtime in hand where it is off.
  abbrev IfOff : Runtime × Option EventState → Type 0
  IfOff (x, state) = x.mode ≡ codes "OFF" → IsDrained view room r

  -- The runtime in hand has the revision, the epoch and the limits of the room's.
  finish-IfOff :
      (active : Option (Text × Event)) (x : Runtime) (state : Option EventState)
      → x.mode ≢ codes "OFF"
      → (IsDrained view room x → IsDrained view room r)
      → IfOff (finish_drain view room active (x, state))
  unfolding finish_drain
  finish-IfOff active x state n same =
      if_cases IfOff (text_eq x.mode (codes "DRAINING") && safe_drain view room x)
        (λ h e. same (safe_drain-IsDrained view room x (ground arith))) (λ h e. absurd (n e))

  advance-IfOff :
      (active : Option (Text × Event)) (now : ℕ)
      → r.mode ≢ codes "OFF"
      → IfOff (finish_drain view room active (advance r active now))
  unfolding advanced
  advance-IfOff none now n = finish-IfOff none r none n (λ d. d)
  advance-IfOff (some e) now n =
      let stage = (next_event_mode e.1 now).0 in
      if_cases (λ (o : Runtime × Option EventState). IfOff (finish_drain view room (some e) o))
        (changes stage
          && (not (text_eq (mode_name stage) r.mode)
              || not (is_running e.1.state)
              || not (text_eq r.event_state (codes "running"))))
        (λ h.
          finish-IfOff (some e) (record r { mode = mode_name stage; event_state = codes "running" })
            (some (next_event_mode e.1 now).1) (not_off stage) (λ d. d))
        (λ h. finish-IfOff (some e) r none n (λ d. d))

revised_mode : (old new : Runtime) → (revised old new).mode ≡ new.mode
revised_mode old new =
    if_cases (λ (x : Runtime). x.mode ≡ new.mode)
      (text_eq old.mode new.mode && text_eq old.event_state new.event_state) (λ h. refl) (λ h. refl)

-- If Tick switches a room off that was not off, then the deployment's view is that the delivery is
-- applied; a report of the coordinator, and one of the gateway, on the room as draining at the
-- runtime's revision and epoch, says that nobody waits or is ready and no recovery is under way, and
-- that the origin is healthy with a full window of arrivals of at most five minutes of the room's rate.
pub tick_room-IsDrained :
    (view : DeliveryView) (room : Text) (active_room : Bool) (r : Runtime) (events : Rows) (now : ℕ)
    → r.mode ≢ codes "OFF"
    → (tick_room view room active_room r events now).0.mode ≡ codes "OFF"
    → IsDrained view room r
unfolding tick_room
tick_room-IsDrained view room active_room r events now n =
    let end = finish_drain view room (active_event events) (advance r (active_event events) now) in
    if_cases (λ (o : Runtime × Option EventState). o.0.mode ≡ codes "OFF" → IsDrained view room r)
      (not active_room) (λ h e. absurd (n e))
      (λ h e.
        advance-IfOff view room r (active_event events) now n (sym (revised_mode r end.0) ∙ e))
