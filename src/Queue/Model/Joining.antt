-- ===== src/Queue/Model/Joining.antt =====
-- internal/queue/model/model.go: the place in the queue that `Join` gives.
use waiting_room.Base.{
  decimal-injective, append_cancel, count-insert_new, ℕ, suc, ◌+◌, ◌<◌, ◌≡◌, refl, ap, sym,
  lookup-insert, text_eq_sound, decimal, Bool-cases, ◌∙◌, List, [], ◌∷◌, ◌++◌, none, some, arith,
  not, if◌then◌else◌, subst, ◌≤◌, Result, ok, err, All, All-map, Text, text_eq, lookup, inl, inr,
  codes,
}
use waiting_room.Queue.Model.Lifetimes.{Lawful, AllLawful}
use waiting_room.Queue.Model.Cases.{join_cases}
use waiting_room.Queue.Model.{
  Model, Ticket, State, Error, is_expired, visitor_count, ticket_id, issue, joined, join,
}

ticket_id-injective : (epoch s u : ℕ) → ticket_id epoch s ≡ ticket_id epoch u → s ≡ u
unfolding ticket_id
ticket_id-injective epoch s u e =
    decimal-injective s u (append_cancel (decimal epoch ++ codes ":") _ _ e)

not_yet_issued :
    (m : Model) (ts : List (Text × Ticket))
    → All (Lawful m) ts
    → lookup (ticket_id m.epoch (suc m.sequence)) ts ≡ none
unfolding lookup
not_yet_issued m [] h = refl
not_yet_issued m ((k, t) ∷ ts) h =
    elim (Bool-cases (text_eq k (ticket_id m.epoch (suc m.sequence)))) [
      | inl same ↦
          let own : k ≡ ticket_id m.epoch t.sequence =
            h.0.0 ∙ ap (λ e. ticket_id e t.sequence) h.0.1 in
          let clash =
            ticket_id-injective m.epoch t.sequence (suc m.sequence)
              (sym own ∙ text_eq_sound _ _ same) in
          absurd (omega (arith, clash, h.0.2))
      | inr other ↦ rw other (not_yet_issued m ts h.1)
    ]

issued_last :
    (m : Model) (ts : List (Text × Ticket))
    → All (Lawful m) ts
    → All (λ e. e.1.sequence < (issue m).sequence) ts
unfolding issue
issued_last m ts h = All-map (Lawful m) _ (λ e l. omega (arith, l.2)) ts h

-- What `Join` leaves for a visitor whom it lets in.
abbrev pub Appended : Model → Text → Model → Ticket → Type 0
Appended m id m' t =
    (lookup t.id m.tickets ≡ none)
    × (t.state ≡ State.waiting)
    × (visitor_count m'.tickets ≡ visitor_count m.tickets + 1)
    × (visitor_count m'.tickets ≤ m.config.visitor_cap)
    × (lookup id m'.tickets ≡ (if text_eq t.id id then some t else lookup id m.tickets))
    × All (λ e. e.1.sequence < t.sequence) m.tickets

joined-Appended :
    (key fingerprint id : Text) (m : Model)
    → AllLawful m
    → visitor_count m.tickets < m.config.visitor_cap
    → Appended m id (joined key fingerprint m) (issue m)
unfolding joined visitor_count issue
joined-Appended key fingerprint id m h room =
    let new_id = not_yet_issued m m.tickets h in
    let one_more =
      count-insert_new (λ (e : Text × Ticket). not (is_expired e.1.state)) (issue m).id (issue m)
        m.tickets new_id in
    (
      new_id,
      refl,
      omega (arith, one_more),
      omega (arith, one_more),
      lookup-insert _ id (issue m) m.tickets,
      unfold issue in issued_last m m.tickets h,
    )

abbrev IfIssued : Model → Text → Model × Result Error Ticket → Type 0
IfIssued m id (m', ok t) = Appended m id m' t
IfIssued m id (m', err e) = Unit

-- In a model whose tickets are lawful (AllLawful, which every call keeps while the times are early), a `Join` that succeeds
-- with a key that is not remembered appends to the queue: the ticket that it returns waits, its id is
-- new, every other sequence number is lower, there is one visitor more and no more than the cap, and
-- of the tickets only its own is written.
pub join_appends :
    (key fingerprint id : Text) (m : Model) {m' : Model} {t : Ticket}
    → AllLawful m
    → lookup key m.idempotency ≡ none
    → join key fingerprint m ≡ (m', ok t)
    → (lookup t.id m.tickets ≡ none)
      × (t.state ≡ State.waiting)
      × (visitor_count m'.tickets ≡ visitor_count m.tickets + 1)
      × (visitor_count m'.tickets ≤ m.config.visitor_cap)
      × (lookup id m'.tickets ≡ (if text_eq t.id id then some t else lookup id m.tickets))
      × All (λ e. e.1.sequence < t.sequence) m.tickets
join_appends key fingerprint id m h unknown e = subst (IfIssued m id) e (
    join_cases (IfIssued m id) key fingerprint m (λ _. tt)
      (λ old known _. absurd (cc (unknown, known)))
      (λ _ _ room _. joined-Appended key fingerprint id m h room))
