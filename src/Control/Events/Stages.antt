-- ===== src/Control/Events/Stages.antt =====
-- internal/control/runtime.go: NextEventMode over time.
use waiting_room.Base.{ℕ, ◌≤◌, ◌≡◌, refl, arith, Bool, true, false, not, ◌||◌, ltb, if◌then◌else◌}
use waiting_room.Control.Events.{EventState, Event, Stage, may_advance, next_event_mode}

abbrev pub rank : Stage → ℕ
rank Stage.unchanged = 0
rank Stage.hold = 1
rank Stage.auto = 2
rank Stage.draining = 3

-- With the tests' values in place of the event's state and times.
abbrev staged : Bool → Bool → Bool → Bool → EventState → Stage × EventState
staged fixed early undrained unadmitted state =
    if fixed || early
    then (Stage.unchanged, state)
    else if not undrained
    then (Stage.draining, EventState.running)
    else if not unadmitted
    then (Stage.auto, EventState.running)
    else (Stage.hold, EventState.running)

staged_again :
    (fixed e1 d1 a1 e2 d2 a2 : Bool) (state : EventState)
    → not (may_advance state) ≡ fixed
    → (e1 ≡ false → e2 ≡ false)
    → (d1 ≡ false → d2 ≡ false)
    → (a1 ≡ false → a2 ≡ false)
    → (staged
          (not (may_advance (staged fixed e1 d1 a1 state).1))
          e2
          d2
          a2
          (staged fixed e1 d1 a1 state).1
        ≡ staged fixed e2 d2 a2 state)
      × (rank (staged fixed e1 d1 a1 state).0 ≤ rank (staged fixed e2 d2 a2 state).0)
staged_again true e1 d1 a1 e2 d2 a2 state f he hd ha = (rw f refl, omega arith)
staged_again false true d1 a1 e2 d2 a2 state f he hd ha = (rw f refl, omega arith)
staged_again false false false a1 e2 d2 a2 state f he hd ha =
    rw (he refl, hd refl) (refl, omega arith)
staged_again false false true false e2 true a2 state f he hd ha =
    rw (he refl, ha refl) (refl, omega arith)
staged_again false false true true e2 true true state f he hd ha = rw (he refl) (refl, omega arith)
staged_again false false true true e2 true false state f he hd ha = rw (he refl) (refl, omega arith)
staged_again false false true true e2 false a2 state f he hd ha = rw (he refl) (refl, omega arith)
staged_again false false true false e2 false a2 state f he hd ha = rw (he refl) (refl, omega arith)

-- An event that was stopped by hand or is over has no stage and keeps its state.
abbrev pub Keeps : EventState → Stage × EventState → Type 0
Keeps EventState.paused_by_override r = r ≡ (Stage.unchanged, EventState.paused_by_override)
Keeps EventState.cancelled r = r ≡ (Stage.unchanged, EventState.cancelled)
Keeps EventState.completed r = r ≡ (Stage.unchanged, EventState.completed)
Keeps _ r = Unit

stays : (e : Event) (at : ℕ) → Keeps e.state (next_event_mode e at)
unfolding next_event_mode
stays e at = elim e.state as (λ s. Keeps s (next_event_mode (record e { state = s }) at)) [
  | EventState.scheduled ↦ tt
  | EventState.running ↦ tt
  | EventState.paused_by_override ↦ refl
  | EventState.cancelled ↦ refl
  | EventState.completed ↦ refl
  | EventState.other ↦ tt
]

-- An event that advanced at a time has at any later time the stage and the state that it would have
-- had without that step, and no earlier stage: the catch-up skips the stages that passed, and an event
-- that is paused, cancelled or completed has no stage and keeps its state.
pub next_event_mode_catch_up :
    (e : Event) (now later : ℕ)
    → now ≤ later
    → (next_event_mode (record e { state = (next_event_mode e now).1 }) later
        ≡ next_event_mode e later)
      × (rank (next_event_mode e now).0 ≤ rank (next_event_mode e later).0)
      × Keeps e.state (next_event_mode e later)
unfolding next_event_mode
next_event_mode_catch_up e now later h =
    let (same, up) =
      staged_again (not (may_advance e.state)) (ltb now e.prequeue_at) (ltb now e.drain_at)
        (ltb now e.admit_at) (ltb later e.prequeue_at) (ltb later e.drain_at) (ltb later e.admit_at)
        e.state refl (λ p. ground arith) (λ p. ground arith) (λ p. ground arith) in
    (same, up, stays e later)
