-- ===== src/Control/Runtime/Queues.antt =====
-- internal/control/runtime.go: every queue of a valid delivery is one that the model accepts.
use waiting_room.Base.{
  ℕ, ◌≤◌, ◌≡◌, refl, subst, arith, Bool-cases, inl, inr, Bool, true, false, not, ◌||◌, List, [],
  ◌∷◌, ◌++◌, Option, none, some, ◌==◌, if◌then◌else◌, Text, codes, text_eq, text_eq_iff, length,
  unguarded, is_ok,
}
use waiting_room.Base.Int.{pos_part}
use waiting_room.Control.Config.{
  Config, Room, Limits, Library, Error, elements, is_nil, validate, validate_limits, validate_room,
  validate_rooms, validate_prefixes, refused_names, urls_ok, refused_prefixes, refused_limits,
  refused_policy, high_scale, standard, when,
}
use waiting_room.Control.Runtime.{
  Runtime, RoomRuntime, Delivery, validate_runtime, runtimes_ok, validate_delivery, find_room, find,
  queue_config,
}
use waiting_room.Queue.Model.{default_config, new}

-- The limits' bounds for a cap on leases.
abbrev IsWithin : Limits → ℕ → Type 0
IsWithin l leases =
    (1 ≤ pos_part l.max_active_admission_leases)
    × (pos_part l.max_active_admission_leases ≤ leases)
    × (1 ≤ pos_part l.admissions_per_minute)
    × (60 ≤ pos_part l.admission_ttl_seconds)
    × (pos_part l.admission_ttl_seconds ≤ 3600)

limits-IsWithin :
    (l : Limits) (leases rate : ℕ) → refused_limits l leases rate ≡ false → IsWithin l leases
limits-IsWithin l leases rate h =
    (ground arith, ground arith, ground arith, ground arith, ground arith)

abbrev cap_of : Text → ℕ
cap_of profile = if text_eq profile high_scale then 100000 else 10000

when-none : (b : Bool) → when b ≡ none → b ≡ false
when-none b h = ground arith

runtime-IsWithin :
    (l : Limits) (profile : Text) → validate_limits l profile ≡ none → IsWithin l (cap_of profile)
unfolding validate_limits
runtime-IsWithin l profile h = elim (Bool-cases (text_eq profile high_scale)) [
  | inl high ↦
      rw high
        (limits-IsWithin l 100000 60000 (when-none (refused_limits l 100000 60000) (rw high at h)))
  | inr low ↦ elim (Bool-cases (text_eq profile standard)) [
    | inl std ↦ rw low (
        limits-IsWithin l 10000 6000 (when-none (refused_limits l 10000 6000) (rw (low, std) at h)))
    | inr other ↦ absurd (cc (rw (low, other) at h))
  ]
]

-- The bounds of a room's times to live.
abbrev HasTimes : Room → Type 0
HasTimes r =
    let p = r.queue_policy in
    (60 ≤ pos_part p.ticket_idle_ttl_seconds)
    × (pos_part p.ticket_idle_ttl_seconds ≤ pos_part p.ticket_max_ttl_seconds)
    × (1 ≤ pos_part p.ready_ttl_seconds)

policy_times : (r : Room) → refused_policy r.queue_policy ≡ false → HasTimes r
policy_times r h = (ground arith, ground arith, ground arith)

validate_room-HasTimes :
    (lib : Library) (r : Room) (profile : Text) → validate_room lib r profile ≡ none → HasTimes r
unfolding validate_room
validate_room-HasTimes lib r profile h =
    let (_, h) = unguarded (refused_names lib r) Error.invalid _ h in
    let (_, h) = unguarded (not (urls_ok lib r)) Error.invalid _ h in
    let (_, h) = unguarded (refused_prefixes lib r) Error.invalid _ h in
    let (_, h) =
      unguarded
        (not (validate_prefixes [] r.protect_prefixes)
          || not (validate_prefixes [] (elements r.exclude_prefixes)))
        Error.invalid _ h in
    policy_times r (unguarded (refused_policy r.queue_policy) Error.invalid _ h).0

accepted :
    (rt : Runtime) (profile : Text) (room : Room)
    → IsWithin rt.limits (cap_of profile)
    → HasTimes room
    → is_ok (new (queue_config rt profile room)) ≡ true
unfolding new queue_config default_config
accepted rt profile room w t = ground arith

-- Each room of a configuration that is accepted is accepted.
abbrev AreAccepted : Library → Text → List Room → Type 0
AreAccepted lib profile [] = Unit
AreAccepted lib profile (r ∷ rs) = (validate_room lib r profile ≡ none) × AreAccepted lib profile rs

not_nil {ℓ} : {A : Type ℓ} (o : Option A) → is_nil o ≡ true → o ≡ none
not_nil none h = refl
not_nil (some a) h = absurd cc

validate_rooms-AreAccepted :
    (lib : Library) (profile : Text) (ids public_ids : List Text) (before rs : List Room)
    → validate_rooms lib profile ids public_ids before rs ≡ none
    → AreAccepted lib profile rs
unfolding validate_rooms
validate_rooms-AreAccepted lib profile ids public_ids before [] h = tt
validate_rooms-AreAccepted lib profile ids public_ids before (r ∷ rs) h = (
  not_nil (validate_room lib r profile) (ground arith),
  validate_rooms-AreAccepted lib profile (r.id ∷ ids) (r.public_id ∷ public_ids)
      (before ++ (r ∷ [])) rs (ground arith),
)

validate-AreAccepted :
    (lib : Library) (c : Config)
    → validate lib c ≡ none
    → AreAccepted lib c.profile (elements c.rooms)
unfolding validate
validate-AreAccepted lib c h =
    validate_rooms-AreAccepted lib c.profile [] [] [] (elements c.rooms) (ground arith)

-- What is known of a room and its runtime at one index.
abbrev Paired : Library → Text → Text → Room → Runtime → Type 0
Paired lib profile id room rt =
    (room.id ≡ id)
    × (validate_room lib room profile ≡ none)
    × (validate_runtime rt profile ≡ none)
    × (room.active ≡ false → rt.mode ≡ codes "OFF")

found :
    (lib : Library) (profile id : Text) (rs : List Room) (vs : List RoomRuntime) (room : Room)
    (rt : Runtime)
    → AreAccepted lib profile rs
    → runtimes_ok profile rs vs ≡ true
    → find_room id rs vs ≡ some (room, rt)
    → Paired lib profile id room rt
unfolding find_room runtimes_ok
found lib profile id [] vs room rt a o e = absurd cc
found lib profile id (r ∷ rs) [] room rt a o e = absurd cc
found lib profile id (r ∷ rs) (v ∷ vs) room rt a o e = elim (Bool-cases (text_eq r.id id)) [
  | inl here ↦
      (let p : Paired lib profile id r v.runtime = (
        ground (arith, text_eq_iff r.id id),
        a.0,
        not_nil (validate_runtime v.runtime profile) (ground arith),
        λ off. ground (arith, text_eq_iff v.runtime.mode (codes "OFF")),
      ) in
        let same : some (r, v.runtime) ≡ some (room, rt) = rw here at e in
        subst (Pair_of lib profile id) same p)
  | inr other ↦ found lib profile id rs vs room rt a.1 (ground arith) (rw other at e)
]
  where
    Pair_of : Library → Text → Text → Option (Room × Runtime) → Type 0
    Pair_of lib profile id none = Unit
    Pair_of lib profile id (some (room, rt)) = Paired lib profile id room rt

runtime_limits :
    (rt : Runtime) (profile : Text)
    → validate_runtime rt profile ≡ none
    → validate_limits rt.limits profile ≡ none
unfolding validate_runtime
runtime_limits rt profile h = not_nil (validate_limits rt.limits profile) (ground arith)

-- In a delivery that is valid for a library, a room that is found by an identifier has that
-- identifier, the queue's configuration made from its runtime and its policy is one that the
-- queue's model accepts, and a room that is not active is off.
pub find-accepted :
    (lib : Library) (d : Delivery) (id : Text) (room : Room) (rt : Runtime)
    → validate_delivery lib d ≡ none
    → find d id ≡ some (room, rt)
    → (room.id ≡ id)
      × (is_ok (new (queue_config rt d.config.profile room)) ≡ true)
      × (room.active ≡ false → rt.mode ≡ codes "OFF")
unfolding validate_delivery
find-accepted lib d id room rt valid e =
    let (g, rest) =
      unguarded
        (not (is_nil (validate lib d.config))
          || not (length d.runtimes == length (elements d.config.rooms)))
        Error.invalid _ valid in
    let (o, _) =
      unguarded (not (runtimes_ok d.config.profile (elements d.config.rooms) d.runtimes))
        Error.invalid none rest in
    let config : validate lib d.config ≡ none = not_nil (validate lib d.config) (ground arith) in
    let p =
      found lib d.config.profile id (elements d.config.rooms) d.runtimes room rt
        (validate-AreAccepted lib d.config config) (ground arith) e in
    (
      p.0,
      accepted rt d.config.profile room
          (runtime-IsWithin rt.limits d.config.profile (runtime_limits rt d.config.profile p.2))
          (validate_room-HasTimes lib room d.config.profile p.1),
      p.3,
    )
