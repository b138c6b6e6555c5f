-- ===== src/Queue/Model/Retries.antt =====
-- internal/queue/model/model.go: a call that is repeated has the same answer and no further effect.
use waiting_room.Base.{
  ◌<◌, ◌≡◌, refl, ap, subst, lookup-insert_self, text_eq_refl, Bool-cases, ◌∙◌, false, ◌||◌, some,
  arith, All, Text, text_eq, lookup, inl, inr, All-lookup, ok, err, Result,
}
use waiting_room.Queue.Model.Cases.{claim_cases, join_cases}
use waiting_room.Queue.Model.Lifetimes.{Lawful}
use waiting_room.Queue.Model.Lifetimes.{Lawful}
use waiting_room.Queue.Model.{
  Model, Idem, ticket_of, or_zero, Ticket, State, Error, is_empty, is_recovery, issue, join, joined,
  status, claim,
}

join_again :
    (key fingerprint : Text) (m : Model) (old : Idem)
    → (is_empty key || is_empty fingerprint) ≡ false
    → lookup key m.idempotency ≡ some old
    → old.fingerprint ≡ fingerprint
    → join key fingerprint m ≡ (m, ok (ticket_of m.tickets old.ticket_id))
unfolding join
join_again key fingerprint m old given known same =
    rw (given, join) (rw known (rw (same, text_eq_refl)))

join_other :
    (key fingerprint : Text) (m : Model) (old : Idem)
    → (is_empty key || is_empty fingerprint) ≡ false
    → lookup key m.idempotency ≡ some old
    → text_eq old.fingerprint fingerprint ≡ false
    → join key fingerprint m ≡ (m, err Error.conflict)
unfolding join
join_other key fingerprint m old given known other = rw (given, join) (rw known (rw other))

-- What a successful `Join` leaves behind.
abbrev Remembers : Text → Text → Model × Result Error Ticket → Type 0
Remembers key fingerprint (m, err e) = Unit
Remembers key fingerprint (m, ok t) =
    (old : Idem) × (lookup key m.idempotency ≡ some old)
    × (old.fingerprint ≡ fingerprint)
    × (ticket_of m.tickets old.ticket_id ≡ t)

join-Remembers :
    (key fingerprint : Text) (m : Model) → Remembers key fingerprint (join key fingerprint m)
join-Remembers key fingerprint m =
    join_cases (Remembers key fingerprint) key fingerprint m (λ _. tt)
      (λ old known same. (old, known, same, refl))
      (λ _ _ _ _.
        unfold joined in
        (
          _,
          lookup-insert_self key _ m.idempotency,
          refl,
          ap or_zero (lookup-insert_self (issue m).id (issue m) m.tickets),
        ))

join_given :
    (key fingerprint : Text) (m : Model) {m' : Model} {t : Ticket}
    → join key fingerprint m ≡ (m', ok t)
    → (is_empty key || is_empty fingerprint) ≡ false
unfolding join
join_given key fingerprint m h = elim (Bool-cases (is_empty key || is_empty fingerprint)) [
  | inl missing ↦ absurd (cc (rw missing at h))
  | inr given ↦ given
]

-- A `Join` that succeeded, repeated at once, returns the same ticket and changes nothing more.
pub join_retry :
    (key fingerprint : Text) (m : Model) {m' : Model} {t : Ticket}
    → join key fingerprint m ≡ (m', ok t)
    → join key fingerprint m' ≡ (m', ok t)
join_retry key fingerprint m {m'} {t} h =
    let (old, known, same, it) =
      subst (Remembers key fingerprint) h (join-Remembers key fingerprint m) in
    join_again key fingerprint m' old (join_given key fingerprint m h) known same
    ∙ ap (λ u. (m', ok u)) it

-- A key whose `Join` succeeded is refused under any other fingerprint, and nothing changes.
pub join_conflict :
    (key fingerprint other : Text) (m : Model) {m' : Model} {t : Ticket}
    → join key fingerprint m ≡ (m', ok t)
    → is_empty other ≡ false
    → text_eq fingerprint other ≡ false
    → join key other m' ≡ (m', err Error.conflict)
join_conflict key fingerprint other m {m'} {t} h given differs =
    let (old, known, same, it) =
      subst (Remembers key fingerprint) h (join-Remembers key fingerprint m) in
    join_other key other m' old (ground (arith, join_given key fingerprint m h)) known
      (rw same differs)

-- What a successful `Claim` leaves behind.
abbrev Held : Text → Model × Result Error Ticket → Type 0
Held id (m, err e) = Unit
Held id (m, ok t) =
    (lookup id m.tickets ≡ some t)
    × (t.state ≡ State.admitted)
    × (m.now < t.admission_until)
    × (is_recovery m.mode ≡ false)

ready_valid :
    (m : Model) (k : Text) (t : Ticket)
    → t.state ≡ State.ready
    → Lawful m (k, t)
    → m.now < t.admission_until
ready_valid m k t e h = ground arith

claim-Held : (id : Text) (m : Model) → All (Lawful m) m.tickets → Held id (claim id m)
claim-Held id m h =
    claim_cases (Held id) id m (λ _. tt) (λ t found held valid opened. (found, held, valid, opened))
      (λ t found ready opened. (
        lookup-insert_self id _ m.tickets,
        refl,
        ready_valid m id t ready (All-lookup (Lawful m) id t m.tickets h found),
        opened,
      ))

claim_again : (id : Text) (m : Model) (t : Ticket) → Held id (m, ok t) → claim id m ≡ (m, ok t)
unfolding claim status
claim_again id m t (found, held, valid, opened) = rw (found, claim) (ground arith)

-- A `Claim` that succeeded, repeated at once, returns the same ticket and changes nothing more.
pub claim_retry :
    (id : Text) (m : Model) {m' : Model} {t : Ticket}
    → All (Lawful m) m.tickets
    → claim id m ≡ (m', ok t)
    → claim id m' ≡ (m', ok t)
claim_retry id m {m'} {t} h e = claim_again id m' t (subst (Held id) e (claim-Held id m h))
