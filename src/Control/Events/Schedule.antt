-- ===== src/Control/Events/Schedule.antt =====
-- internal/adminauth/pgstore/events.go: the events of a room stay apart.
use waiting_room.Base.{
  lookup-keep, ℕ, ◌≡◌, ◌≢◌, inl, inr, refl, sym, ap, ◌∙◌, subst, arith, Bool, true, not, ◌||◌,
  Bool-cases, [], ◌∷◌, Option, none, some, leb, ltb, if_cases, some_cases, Text, text_eq,
  text_eq_iff, length, any, keep, lookup, insert, insert-Distinct, Distinct, All, match_some,
  Result, ok, err,
}
use waiting_room.Control.Events.{
  is_paused, active_room, allowed, stored, upserted, EventState, Event, valid_input, is_live,
  Problem, Method, Body, max_events, Rows, in_room, read_events, clashes, place_event, resume_event,
  cancel_event, change_found, next_event, room_of, change_event,
}
use waiting_room.Control.Events.Intervals.{
  AreApart, AllOther, insert-AreApart, same_interval, not_live, placed,
}

-- A row of the identifier is in the event's room.
abbrev SameRoom : Text → Event → Rows → Type 0
SameRoom id e es = (old : Event) → lookup id es ≡ some old → old.room_id ≡ e.room_id

-- What is known of the event that a request changes or makes: it is apart from the others, and stays in
-- its room.
abbrev Fits : Rows → Result Problem (Text × Event) → Type 0
Fits es (err p) = Unit
Fits es (ok e) = AllOther e.0 e.1 es × SameRoom e.0 e.1 es

same_room : (id : Text) (e : Event) (es : Rows) → lookup id es ≡ some e → SameRoom id e es
same_room id e es found old h = ap (λ o. match_some o e.room_id (λ x. x.room_id)) (sym h ∙ found)

kept_room :
    (id room : Text) (e : Event) (es : Rows)
    → lookup id (keep (in_room room) es) ≡ some e
    → e.room_id ≡ room
unfolding lookup keep
kept_room id room e [] h = absurd (cc h)
kept_room id room e ((j, w) ∷ es) h = elim (Bool-cases (in_room room (j, w))) [
  | inl here ↦ elim (Bool-cases (text_eq j id)) [
    | inl it ↦
        let is_w : some w ≡ some e = rw (here, it) at h in
        ap (λ o. match_some o room (λ x. x.room_id)) (sym is_w)
        ∙ (text_eq_iff w.room_id room).0 here
    | inr other ↦ kept_room id room e es (rw (here, other) at h)
  ]
  | inr away ↦ kept_room id room e es (rw away at h)
]

All-other : (id : Text) (es : Rows) → All (λ (x : Text × Event). x.0 ≢ id → x.0 ≢ id) es
All-other id [] = tt
All-other id (x ∷ es) = (λ n. n, All-other id es)

unnamed :
    (id : Text) (es : Rows)
    → lookup [] es ≡ none
    → All (λ (x : Text × Event). x.0 ≢ id → x.0 ≢ []) es
unfolding lookup
unnamed id [] h = tt
unnamed id ((j, w) ∷ es) h = elim (Bool-cases (text_eq j [])) [
  | inl same ↦ absurd (cc (rw same at h))
  | inr other ↦ (λ n e. absurd (ground (arith, text_eq_iff j [])), unnamed id es (rw other at h))
]

place-Fits :
    (id drawn : Option Text) (room : Text) (body : Body) (now : ℕ) (es : Rows)
    → lookup [] es ≡ none
    → ((x : Text) → drawn ≡ some x → lookup x es ≡ none)
    → ((x : Text) (e : Event) → id ≡ some x → lookup x es ≡ some e → e.room_id ≡ room)
    → Fits es (place_event id drawn room body now (keep (in_room room) es))
unfolding place_event
place-Fits id drawn room Body.no_bytes now es named fresh own = tt
place-Fits id drawn room Body.empty_object now es named fresh own = tt
place-Fits id drawn room Body.malformed now es named fresh own = tt
place-Fits none drawn room (Body.input i) now es named fresh own =
    if_cases (Fits es) (not (valid_input i now)) (λ h. tt)
      (λ h.
        if_cases (Fits es) (any (clashes [] i) (keep (in_room room) es)) (λ k. tt)
          (λ k.
            if_cases (Fits es) (leb max_events (length (keep (in_room room) es))) (λ l. tt)
              (λ l.
                some_cases (Fits es) drawn (err Problem.unavailable) _ (λ e. tt)
                  (λ x e. (
                    placed [] x room i es (unnamed x es named) k,
                    λ old h. absurd (cc (fresh x e, h)),
                  )))))
place-Fits (some x) drawn room (Body.input i) now es named fresh own =
    if_cases (Fits es) (not (valid_input i now)) (λ h. tt)
      (λ h.
        if_cases (Fits es) (any (clashes x i) (keep (in_room room) es)) (λ k. tt)
          (λ k. (placed x x room i es (All-other x es) k, λ old h. own x old refl h)))

resume-Fits :
    (id : Text) (e : Event) (body : Body) (now : ℕ) (es : Rows)
    → AreApart es
    → lookup id es ≡ some e
    → is_live e.state ≡ true
    → Fits es (resume_event id e body now)
unfolding resume_event
resume-Fits id e Body.empty_object now es h found live =
    if_cases (Fits es) (not (is_paused e.state) || not (ltb now e.drain_at)) (λ k. tt)
      (λ k. (
        same_interval id e (record e { state = EventState.scheduled }) es h found live refl refl
            refl,
        same_room id e es found,
      ))
resume-Fits id e Body.no_bytes now es h found live = tt
resume-Fits id e Body.malformed now es h found live = tt
resume-Fits id e (Body.input i) now es h found live = tt

cancel-Fits :
    (id : Text) (e : Event) (body : Body) (es : Rows)
    → lookup id es ≡ some e
    → Fits es (cancel_event id e body)
unfolding cancel_event
cancel-Fits id e Body.malformed es found = tt
cancel-Fits id e (Body.input i) es found = tt
cancel-Fits id e Body.no_bytes es found =
    (not_live id (record e { state = EventState.cancelled }) es refl, same_room id e es found)
cancel-Fits id e Body.empty_object es found =
    (not_live id (record e { state = EventState.cancelled }) es refl, same_room id e es found)

room-Fits :
    (active : Bool) (es : Rows) (r : Result Problem (Text × Event))
    → Fits es r
    → Fits es (active_room active r)
room-Fits active es r h = if_cases (Fits es) (not active) (λ k. tt) (λ k. h)

own_room :
    (id room : Text) (e : Event) (es : Rows)
    → lookup id es ≡ some e
    → e.room_id ≡ room
    → (x : Text) (old : Event) → some id ≡ some x
    → lookup x es ≡ some old
    → old.room_id ≡ room
own_room id room e es found inside x old it there =
    let id_is : id ≡ x = ap (λ o. match_some o id (λ y. y)) it in
    same_room id e es found old (subst (λ y. lookup y es ≡ some old) (sym id_is) there) ∙ inside

change-Fits :
    (method : Method) (id : Text) (e : Event) (drawn : Option Text) (room : Text) (active : Bool)
    (body : Body) (now : ℕ) (es : Rows)
    → lookup [] es ≡ none
    → AreApart es
    → lookup id es ≡ some e
    → is_live e.state ≡ true
    → ((x : Text) → drawn ≡ some x → lookup x es ≡ none)
    → e.room_id ≡ room
    → Fits es (change_found method id e drawn room active body now (keep (in_room room) es))
change-Fits Method.delete id e drawn room active body now es named h found live fresh inside =
    cancel-Fits id e body es found
change-Fits Method.post id e drawn room active body now es named h found live fresh inside =
    room-Fits active es (resume_event id e body now) (resume-Fits id e body now es h found live)
change-Fits Method.put id e drawn room active body now es named h found live fresh inside =
    room-Fits active es _
      (place-Fits (some id) drawn room body now es named fresh (own_room id room e es found inside))
change-Fits Method.other_method id e drawn room active body now es named h found live fresh inside =
    room-Fits active es _
      (place-Fits (some id) drawn room body now es named fresh (own_room id room e es found inside))

next-Fits :
    (method : Method) (id drawn : Option Text) (room : Text) (active : Bool) (body : Body) (now : ℕ)
    (es : Rows)
    → Distinct es
    → lookup [] es ≡ none
    → AreApart es
    → ((x : Text) → drawn ≡ some x → lookup x es ≡ none)
    → Fits es (next_event method id drawn room active body now (keep (in_room room) es))
unfolding next_event
next-Fits method none drawn room active body now es d named h fresh =
    room-Fits active es _
      (place-Fits none drawn room body now es named fresh (λ x e it. absurd (cc it)))
next-Fits method (some id) drawn room active body now es d named h fresh =
    some_cases (Fits es) (lookup id (keep (in_room room) es)) (err Problem.event_inactive) _
      (λ e. tt)
      (λ e found.
        if_cases (Fits es) (not (is_live e.state)) (λ k. tt)
          (λ k.
            change-Fits method id e drawn room active body now es named h
              (lookup-keep (in_room room) id es e d found) (ground arith) fresh
              (kept_room id room e es found)))

-- A table that a request leaves.
abbrev Leaves : Result Problem Rows → Type 0
Leaves (err p) = Unit
Leaves (ok t) = Distinct t × AreApart t

upserted_same : (es : Rows) (id : Text) (e : Event) → SameRoom id e es → upserted es id e ≡ e
upserted_same es id e same =
    some_cases (λ (v : Event). v ≡ e) (lookup id es) e (λ old. record e { room_id = old.room_id })
      (λ h. refl) (λ old h. ap (λ r. record e { room_id = r }) (same old h))

stored-Leaves :
    (es : Rows) (r : Result Problem (Text × Event))
    → Distinct es
    → AreApart es
    → Fits es r
    → Leaves (stored es r)
stored-Leaves es (err p) d h f = tt
stored-Leaves es (ok e) d h f =
    subst (λ v. Leaves (ok (insert e.0 v es))) (sym (upserted_same es e.0 e.1 f.1))
      (insert-Distinct e.0 e.1 es d, insert-AreApart e.0 e.1 es d f.0 h)

change_event-Leaves :
    (find : Text → Option (Bool × Bool)) (method : Method) (id drawn : Option Text) (room : Text)
    (body : Body) (now : ℕ) (es : Rows)
    → Distinct es
    → lookup [] es ≡ none
    → AreApart es
    → ((x : Text) → drawn ≡ some x → lookup x es ≡ none)
    → Leaves (change_event find method id drawn room body now es)
unfolding change_event read_events
change_event-Leaves find method id drawn room body now es d named h fresh =
    if_cases Leaves (not (allowed id method)) (λ k. tt)
      (λ k.
        some_cases Leaves (room_of es id room) (err Problem.not_found) _ (λ e. tt)
          (λ r e1.
            some_cases Leaves (find r) (err Problem.not_found) _ (λ e. tt)
              (λ f e2.
                if_cases Leaves (not f.1) (λ l. tt)
                  (λ l.
                    if_cases
                      (λ (o : Option Rows). Leaves (
                        match_some o (err Problem.unavailable)
                          (λ events. stored es (next_event method id drawn r f.0 body now events))))
                      (ltb max_events (length (keep (in_room r) es))) (λ m. tt)
                      (λ m.
                        stored-Leaves es _ d h
                          (next-Fits method id drawn r f.0 body now es d named h fresh))))))

-- In a table of events with one row for an identifier and none for the empty one, in which no two live
-- events of a room have an instant in common, and which has no row for the identifier drawn for a
-- new event, a request to ChangeEvent that is accepted, to make,
-- replace, resume or cancel an event, leaves a table of the same kind: with one row for an
-- identifier, and the live events of each room apart.
pub change_event-AreApart :
    (find : Text → Option (Bool × Bool)) (method : Method) (id drawn : Option Text) (room : Text)
    (body : Body) (now : ℕ) (es es' : Rows)
    → Distinct es
    → lookup [] es ≡ none
    → AreApart es
    → ((x : Text) → drawn ≡ some x → lookup x es ≡ none)
    → change_event find method id drawn room body now es ≡ ok es'
    → Distinct es' × AreApart es'
change_event-AreApart find method id drawn room body now es es' d named h fresh e =
    subst Leaves e (change_event-Leaves find method id drawn room body now es d named h fresh)
