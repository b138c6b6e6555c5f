-- ===== src/Queue/Model/Lifetimes.antt =====
-- internal/queue/model/model.go: how long tickets live, and when an uncertain store may resume.
use waiting_room.Base.{
  ◌^◌, ℕ, suc, max, ◌+◌, ◌≤◌, ◌<◌, ◌≡◌, refl, sym, subst, Bool, true, false, not, ◌&&◌, ◌||◌, List,
  [], ◌∷◌, arith, if◌then◌else◌, All, All-map, Text, Bool-cases, inl, inr, insert-All, All-lookup,
  ltb,
}
use waiting_room.Queue.Model.Tickets.{All-expire_all}
use waiting_room.Queue.Model.Promoting.{Known, promote_one-tickets, promote_inv}
use waiting_room.Queue.Model.Cases.{heartbeat_cases, claim_cases, join_cases}
use waiting_room.Queue.Model.Invariant.{Inv, step-Inv}
use waiting_room.Queue.Model.Frame.{IsBelow, step_config, step_now}
use waiting_room.Queue.Policy.{Candidate}
use waiting_room.Queue.Model.{
  Model, Mode, Ticket, State, Call, Config, is_lease, is_recovery, readied, refreshed, claimed,
  ticket_id, issue, promote_one, promote, expire, advance, joined, positive_64, minute, set_hold,
  start_drain, uncertain, resume, new_epoch, step, run, after, advances, joins, heartbeats,
  promotes, claims, sets_hold, drains, uncertainties, new_epochs, resumes,
}

-- The bounds on the admission of a ticket in the given state.
abbrev Timed : State → ℕ → Config → Ticket → Type 0
Timed State.ready now c t =
    (now < t.ready_until)
    × (t.ready_until ≤ t.admission_until)
    × (t.admission_until ≤ now + c.admission_ttl)
Timed State.admitted now c t =
    (now < t.admission_until + c.clock_skew) × (t.admission_until ≤ now + c.admission_ttl)
Timed _ now c t = Unit

-- While the store is uncertain, what it must outwait.
abbrev Outwaited : Bool → ℕ → Config → Ticket → Type 0
Outwaited false until c t = Unit
Outwaited true until c t = t.admission_until + c.clock_skew ≤ until

abbrev Bounded : Model → Ticket → Type 0
Bounded m t =
    Timed t.state m.now m.config t
    × Outwaited (is_recovery m.mode && is_lease t.state) m.unsafe_until m.config t

-- Each ticket is of the current epoch, under the id of its sequence number, which was issued, and
-- within its time.
abbrev pub Lawful : Model → Text × Ticket → Type 0
Lawful m (k, t) =
    (k ≡ ticket_id t.epoch t.sequence)
    × (t.epoch ≡ m.epoch)
    × (t.sequence ≤ m.sequence)
    × Bounded m t

expire-Lawful :
    (to : ℕ) (m : Model) (k : Text) (t : Ticket)
    → m.now ≤ to
    → Lawful m (k, t)
    → Lawful (record m { now = to }) (k, expire to m.config.clock_skew t)
unfolding expire
expire-Lawful to m k t later h = ground arith

refreshed-Lawful :
    (m : Model) (k : Text) (t : Ticket) → Lawful m (k, t) → Lawful m (k, refreshed m t)
refreshed-Lawful m k t h = ground arith

claimed-Lawful :
    (m : Model) (k : Text) (t : Ticket)
    → t.state ≡ State.ready
    → Lawful m (k, t)
    → Lawful m (k, claimed t)
claimed-Lawful m k t e h = ground arith

readied-Lawful :
    (m : Model) (k : Text) (t : Ticket)
    → is_recovery m.mode ≡ false
    → 0 < m.config.ready_ttl
    → 0 < m.config.admission_ttl
    → Lawful m (k, t)
    → Lawful m (k, readied m t)
unfolding readied
readied-Lawful m k t safe r a h = ground arith

abbrev pub AllLawful : Model → Type 0
AllLawful m = All (Lawful m) m.tickets

-- What `New` guarantees of the times that a promotion adds.
abbrev pub HasTimes : Config → Type 0
HasTimes c = (0 < c.ready_ttl) × (0 < c.admission_ttl)

advance-Lawful : (to : ℕ) (m : Model) → AllLawful m → AllLawful (after m (advance to m))
unfolding advance
advance-Lawful to m h = elim (Bool-cases (ltb to m.now)) [
  | inl back ↦ rw back h
  | inr on ↦ rw on (
      All-expire_all (Lawful m) (Lawful (record m { now = to })) to m.config.clock_skew
        (λ k t l. expire-Lawful to m k t (ground arith) l) m.tickets h)
]

joined-Lawful :
    (key fingerprint : Text) (m : Model)
    → is_recovery m.mode ≡ false
    → AllLawful m
    → AllLawful (joined key fingerprint m)
unfolding joined issue
joined-Lawful key fingerprint m safe h =
    insert-All (Lawful (joined key fingerprint m)) _ _ m.tickets
      (refl, refl, omega arith, rw safe (tt, tt))
      (All-map (Lawful m) (Lawful (joined key fingerprint m))
        (λ e l. (l.0, l.1, omega (arith, l.2), l.3)) m.tickets h)

-- One round of `Promote`, in a store that is not uncertain.
abbrev Rounds : ℕ → Model → Type 0
Rounds n m = AllLawful m × HasTimes m.config × (is_recovery m.mode ≡ false)

promote_one-Rounds :
    (n : ℕ) (c : Candidate) (m : Model)
    → Known m.tickets c
    → Rounds (suc n) m
    → Rounds n (promote_one c m).0
unfolding promote_one
promote_one-Rounds n c m (t, found, live, id) (h, times, safe) =
    let l =
      readied-Lawful m c.id t safe times.0 times.1
        (All-lookup (Lawful m) c.id t m.tickets h found) in
    (
      subst (All (Lawful m)) (sym (promote_one-tickets c m t found id))
          (insert-All (Lawful m) c.id (readied m t) m.tickets l h),
      times,
      safe,
    )

-- An uncertain store promotes nobody.
pub promote_recovery :
    (limit : ℕ) (m : Model) → is_recovery m.mode ≡ true → promote limit m ≡ (m, [])
unfolding promote
promote_recovery limit m closed = ground arith

promote-Lawful :
    (limit : ℕ) (m : Model)
    → HasTimes m.config
    → Inv m
    → AllLawful m
    → AllLawful (promote limit m).0
promote-Lawful limit m times v h = elim (Bool-cases (is_recovery m.mode)) [
  | inl closed ↦ rw (promote_recovery limit m closed) h
  | inr opened ↦
      let (k, kept) =
        promote_inv Rounds promote_one-Rounds limit m v.keyed v.distinct (h, times, opened) in
      kept.0
]

-- A change of mode alone, to one that is not uncertain.
mode-Lawful :
    (mode : Mode) (m : Model)
    → is_recovery mode ≡ false
    → AllLawful m
    → All (Lawful (record m { mode = mode })) m.tickets
mode-Lawful mode m safe h =
    All-map (Lawful m) _ (λ (k, t) l. (l.0, l.1, l.2, (l.3.0, rw safe tt))) m.tickets h

positive_64-small : (n : ℕ) → n < 2 ^ 63 → positive_64 n ≡ n
unfolding positive_64
positive_64-small n h = ground arith

-- The clock is below 2^62, and the lifetimes that a lease depends on are below 2^61.
abbrev pub IsEarly : Model → Type 0
IsEarly m =
    (m.now < 2 ^ 62)
    × (m.config.ready_ttl < 2 ^ 61)
    × (m.config.admission_ttl ≤ 3600000)
    × (m.config.clock_skew ≤ 30000)

-- A call that sets the clock sets it below 2^62.
abbrev pub IsTimely : Call → Type 0
IsTimely c = IsBelow (2 ^ 62) c

step-IsEarly : (c : Call) (m : Model) → IsTimely c → IsEarly m → IsEarly (step c m)
step-IsEarly c m timely e =
    let config = step_config c m in
    let clock = step_now (2 ^ 62) c m timely e.0 in
    (
      clock,
      subst (λ x. x.ready_ttl < 2 ^ 61) (sym config) e.1,
      subst (λ x. x.admission_ttl ≤ 3600000) (sym config) e.2,
      subst (λ x. x.clock_skew ≤ 30000) (sym config) e.3,
    )

until_exact :
    (m : Model)
    → IsEarly m
    → let longest = max (max m.config.admission_ttl m.config.ready_ttl) minute in
      positive_64 (m.now + longest + m.config.clock_skew) ≡ m.now + longest + m.config.clock_skew
until_exact m e = positive_64-small _ (omega arith)

uncertain-Lawful : (m : Model) → IsEarly m → AllLawful m → AllLawful (uncertain m).0
unfolding uncertain
uncertain-Lawful m e h =
    let exact = until_exact m e in
    All-map (Lawful m) (Lawful (uncertain m).0) (λ (k, t) l. ground arith) m.tickets h

set_hold-Lawful : (held : Bool) (m : Model) → AllLawful m → AllLawful (set_hold held m).0
unfolding set_hold
set_hold-Lawful held m h = elim (Bool-cases (is_recovery m.mode)) [
  | inl closed ↦ rw closed h
  | inr opened ↦ rw opened (mode-Lawful (if held then Mode.hold else Mode.auto) m (ground arith) h)
]

start_drain-Lawful : (m : Model) → AllLawful m → AllLawful (start_drain m).0
unfolding start_drain
start_drain-Lawful m h = elim (Bool-cases (is_recovery m.mode)) [
  | inl closed ↦ rw closed h
  | inr opened ↦ rw opened (mode-Lawful Mode.draining m refl h)
]

resume-Lawful : (verified : Bool) (m : Model) → AllLawful m → AllLawful (resume verified m).0
unfolding resume
resume-Lawful verified m h =
    elim (Bool-cases (not (is_recovery m.mode) || not verified || ltb m.now m.unsafe_until)) [
      | inl refused ↦ rw refused h
      | inr done ↦ rw done (mode-Lawful Mode.auto m refl h)
    ]

pub step-Lawful :
    (c : Call) (m : Model)
    → IsEarly m
    → HasTimes m.config
    → Inv m
    → AllLawful m
    → AllLawful (step c m)
unfolding step
step-Lawful (advances to) m early times v h = advance-Lawful to m h
step-Lawful (joins key fingerprint) m early times v h =
    join_cases (λ r. AllLawful r.0) key fingerprint m (λ _. h) (λ _ _ _. h)
      (λ _ safe _ _. joined-Lawful key fingerprint m safe h)
step-Lawful (heartbeats id) m early times v h =
    heartbeat_cases (λ r. AllLawful r.0) id m (λ _. h) h
      (λ t found waits.
        insert-All (Lawful m) id _ m.tickets
          (refreshed-Lawful m id t (All-lookup (Lawful m) id t m.tickets h found)) h)
step-Lawful (promotes limit) m early times v h = promote-Lawful limit m times v h
step-Lawful (claims id) m early times v h =
    claim_cases (λ r. AllLawful r.0) id m (λ _. h) (λ _ _ _ _ _. h)
      (λ t found ready _.
        insert-All (Lawful m) id _ m.tickets
          (claimed-Lawful m id t ready (All-lookup (Lawful m) id t m.tickets h found)) h)
step-Lawful (sets_hold held) m early times v h = set_hold-Lawful held m h
step-Lawful drains m early times v h = start_drain-Lawful m h
step-Lawful uncertainties m early times v h = uncertain-Lawful m early h
step-Lawful new_epochs m early times v h = unfold new_epoch in tt
step-Lawful (resumes verified) m early times v h = resume-Lawful verified m h

pub run-Lawful :
    (cs : List Call) (m : Model)
    → All IsTimely cs
    → IsEarly m
    → HasTimes m.config
    → Inv m
    → AllLawful m
    → Inv (run cs m) × AllLawful (run cs m)
unfolding run
run-Lawful [] m timely e times v h = (v, h)
run-Lawful (c ∷ cs) m timely e times v h =
    run-Lawful cs (step c m) timely.1 (step-IsEarly c m timely.0 e)
      (subst HasTimes (sym (step_config c m)) times) (step-Inv c m v) (step-Lawful c m e times v h)
