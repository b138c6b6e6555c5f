-- ===== src/Queue/Model/Cases.antt =====
-- internal/queue/model/model.go: the outcomes of the operations that look at one ticket or key.
use waiting_room.Base.{
  ◌<◌, ◌≡◌, refl, Bool, false, not, ◌||◌, none, some, arith, if◌then◌else◌, Text, text_eq,
  text_eq_sound, lookup, insert, Bool-cases, Option-cases, inl, inr, ◌⊎◌, length, leb, ltb, Result,
  ok, err,
}
use waiting_room.Queue.Model.{
  Model, Mode, Ticket, Idem, State, Error, is_expired, is_waiting, is_recovery, is_draining,
  is_empty, visitor_count, join, join_new, joined, issue, ticket_of, status, heartbeat, refreshed,
  claim, claimed, set_hold, start_drain, resume,
}

status_cases :
    (id : Text) (m : Model)
    → ((e : Error) × (status id m ≡ err e))
      ⊎ ((t : Ticket) × (status id m ≡ ok t)
          × (lookup id m.tickets ≡ some t)
          × (is_expired t.state ≡ false))
unfolding status
status_cases id m = elim (Option-cases (lookup id m.tickets)) [
  | inl e ↦ inl (Error.ticket_expired, rw (e, status))
  | inr (t, e) ↦ elim (Bool-cases (is_expired t.state)) [
    | inl dead ↦ inl (Error.ticket_expired, rw (e, status) (rw dead))
    | inr live ↦ inr (t, rw (e, status) (rw live), e, live)
  ]
]

module _ {ℓ} (P : Model × Result Error (Unit {0}) → Type ℓ) (id : Text) (m : Model) where
  pub heartbeat_cases :
      ((e : Error) → P (m, err e))
      → P (m, ok tt)
      → ((t : Ticket)
          → lookup id m.tickets ≡ some t
          → t.state ≡ State.waiting
          → P (record m { tickets = insert id (refreshed m t) m.tickets }, ok tt))
      → P (heartbeat id m)
  unfolding heartbeat
  heartbeat_cases refused same fresh = elim (status_cases id m) [
    | inl (e, bad) ↦ rw (bad, heartbeat) (refused e)
    | inr (t, fine, found, live) ↦
        rw (fine, heartbeat)
          (elim (Bool-cases (is_recovery m.mode)) [
            | inl closed ↦ rw closed (refused _)
            | inr opened ↦ rw opened (elim (Bool-cases (is_waiting t.state)) [
              | inl waits ↦ rw waits (fresh t found (ground arith))
              | inr other ↦ rw other same
            ])
          ])
  ]

module _ {ℓ} (P : Model × Result Error Ticket → Type ℓ) (id : Text) (m : Model) where
  claim_live :
      (t : Ticket)
      → is_recovery m.mode ≡ false
      → is_expired t.state ≡ false
      → ((e : Error) → P (m, err e))
      → (t.state ≡ State.admitted → m.now < t.admission_until → P (m, ok t))
      → (t.state ≡ State.ready
          → P (record m { tickets = insert id (claimed t) m.tickets }, ok (claimed t)))
      → status id m ≡ ok t
      → P (claim id m)
  unfolding claim
  claim_live t opened live refused again first fine =
      rw (fine, claim) (rw opened (by_state t.state refl))
    where
      by_state :
          (s : State)
          → t.state ≡ s
          → P (elim s [
            | State.admitted ↦
                if leb t.admission_until m.now then (m, err Error.ticket_expired) else (m, ok t)
            | State.ready ↦ (record m { tickets = insert id (claimed t) m.tickets }, ok (claimed t))
            | _ ↦ (m, err Error.not_ready)
          ])
      by_state State.unset e = refused _
      by_state State.waiting e = refused _
      by_state State.ready e = first e
      by_state State.admitted e = elim (Bool-cases (leb t.admission_until m.now)) [
        | inl over ↦ rw over (refused _)
        | inr valid ↦ rw valid (again e (ground arith))
      ]
      by_state State.expired e = refused _

  pub claim_cases :
      ((e : Error) → P (m, err e))
      → ((t : Ticket)
          → lookup id m.tickets ≡ some t
          → t.state ≡ State.admitted
          → m.now < t.admission_until
          → is_recovery m.mode ≡ false
          → P (m, ok t))
      → ((t : Ticket)
          → lookup id m.tickets ≡ some t
          → t.state ≡ State.ready
          → is_recovery m.mode ≡ false
          → P (record m { tickets = insert id (claimed t) m.tickets }, ok (claimed t)))
      → P (claim id m)
  unfolding claim
  claim_cases refused again first = elim (status_cases id m) [
    | inl (e, bad) ↦ rw (bad, claim) (refused e)
    | inr (t, fine, found, live) ↦ elim (Bool-cases (is_recovery m.mode)) [
      | inl closed ↦ rw (fine, claim) (rw closed (refused _))
      | inr opened ↦
          claim_live t opened live refused (λ e valid. again t found e valid opened)
            (λ e. first t found e opened) fine
    ]
  ]

module _ {ℓ} (P : Model × Result Error Ticket → Type ℓ) (key fingerprint : Text) (m : Model) where
  join_new_cases :
      ((e : Error) → P (m, err e))
      → (is_recovery m.mode ≡ false
          → visitor_count m.tickets < m.config.visitor_cap
          → length m.idempotency < m.config.idempotency_cap
          → P (joined key fingerprint m, ok (issue m)))
      → P (join_new key fingerprint m)
  unfolding join_new
  join_new_cases refused fresh = elim (Bool-cases (is_recovery m.mode)) [
    | inl closed ↦ rw closed (refused _)
    | inr opened ↦ rw opened (elim (Bool-cases (is_draining m.mode)) [
      | inl drains ↦ rw drains (refused _)
      | inr flows ↦
          rw flows
            (elim (Bool-cases (
              leb m.config.visitor_cap (visitor_count m.tickets)
              || leb m.config.idempotency_cap (length m.idempotency))) [
                | inl full ↦ rw full (refused _)
                | inr room ↦ rw room (fresh opened (ground arith) (ground arith))
              ])
    ])
  ]

  pub join_cases :
      ((e : Error) → P (m, err e))
      → ((old : Idem)
          → lookup key m.idempotency ≡ some old
          → old.fingerprint ≡ fingerprint
          → P (m, ok (ticket_of m.tickets old.ticket_id)))
      → (lookup key m.idempotency ≡ none
          → is_recovery m.mode ≡ false
          → visitor_count m.tickets < m.config.visitor_cap
          → length m.idempotency < m.config.idempotency_cap
          → P (joined key fingerprint m, ok (issue m)))
      → P (join key fingerprint m)
  unfolding join
  join_cases refused again fresh = elim (Bool-cases (is_empty key || is_empty fingerprint)) [
    | inl missing ↦ rw missing (refused _)
    | inr given ↦ rw given (elim (Option-cases (lookup key m.idempotency)) [
      | inl unknown ↦ rw unknown (join_new_cases refused (fresh unknown))
      | inr (old, known) ↦ rw known (elim (Bool-cases (text_eq old.fingerprint fingerprint)) [
        | inl same ↦ rw same (again old known (text_eq_sound _ _ same))
        | inr other ↦ rw other (refused _)
      ])
    ])
  ]

module _ {ℓ} (P : Model × Result Error (Unit {0}) → Type ℓ) where
  pub set_hold_cases :
      (held : Bool) (m : Model)
      → P (m, err Error.unavailable)
      → P (record m { mode = if held then Mode.hold else Mode.auto }, ok tt)
      → P (set_hold held m)
  unfolding set_hold
  set_hold_cases held m refused done = elim (Bool-cases (is_recovery m.mode)) [
    | inl closed ↦ rw closed refused
    | inr opened ↦ rw opened done
  ]

  pub start_drain_cases :
      (m : Model)
      → P (m, err Error.unavailable)
      → P (record m { mode = Mode.draining; cutoff = m.sequence }, ok tt)
      → P (start_drain m)
  unfolding start_drain
  start_drain_cases m refused done = elim (Bool-cases (is_recovery m.mode)) [
    | inl closed ↦ rw closed refused
    | inr opened ↦ rw opened done
  ]

  pub resume_cases :
      (verified : Bool) (m : Model)
      → P (m, err Error.unavailable)
      → P (record m { mode = Mode.auto }, ok tt)
      → P (resume verified m)
  unfolding resume
  resume_cases verified m refused done =
      elim (Bool-cases (not (is_recovery m.mode) || not verified || ltb m.now m.unsafe_until)) [
        | inl closed ↦ rw closed refused
        | inr opened ↦ rw opened done
      ]
