-- ===== src/Queue/Model/Invariant.antt =====
-- internal/queue/model/model.go: the capacities that every call respects.
use waiting_room.Base.{
  ℕ, subst, suc, ◌+◌, ◌≤◌, ◌<◌, ◌≡◌, refl, sym, ◌∙◌, true, false, List, [], ◌∷◌, count, some, arith,
  All, Distinct, Text, lookup, insert, Bool-cases, inl, inr, length, length-append, insert-All,
  insert-Distinct, length-keep-le, length-insert-le, All-lookup, ok, ltb,
}
use waiting_room.Queue.Model.Tickets.{
  Keyed, expire_id, All-expire_all, expire_all-Distinct, visitor_count-expire_all,
  lease_count-expire_all, visitor_count-insert-le, lease_count-insert-le, visitor_count-insert_over,
  lease_count-insert_over, lease_count-insert_other,
}
use waiting_room.Queue.Model.Promoting.{Known, promote_one-tickets, promote_inv}
use waiting_room.Queue.Model.Cases.{heartbeat_cases, claim_cases, join_cases}
use waiting_room.Queue.Policy.{Candidate}
use waiting_room.Queue.Model.{
  Model, Ticket, Call, Config, is_lease, is_expired, visitor_count, lease_count, readied, issue,
  promote_one, promote, budget, drop_old, new, advance, joined, set_hold, start_drain, uncertain,
  resume, new_epoch, step, run, after, advances, joins, heartbeats, promotes, claims, sets_hold,
  drains, uncertainties, new_epochs, resumes,
}

pub record Inv (m : Model) : Type 0 where
  pub keyed : All Keyed m.tickets
  pub distinct : Distinct m.tickets
  pub visitors : visitor_count m.tickets ≤ m.config.visitor_cap
  pub leases : lease_count m.tickets ≤ m.config.lease_cap
  pub rates : length m.rate_times ≤ m.config.rate
  pub remembered : length m.idempotency ≤ m.config.idempotency_cap

pub length-drop_old-le : (now : ℕ) (ts : List ℕ) → length (drop_old now ts) ≤ length ts
unfolding drop_old
length-drop_old-le now [] = omega arith
length-drop_old-le now (t ∷ ts) = ground (arith, length-drop_old-le now ts)

pub new-Inv : (c : Config) {m : Model} → new c ≡ ok m → Inv m
unfolding new visitor_count lease_count count
new-Inv c h = ground arith

advance-Inv : (to : ℕ) (m : Model) → Inv m → Inv (after m (advance to m))
unfolding advance
advance-Inv to m v = elim (Bool-cases (ltb to m.now)) [
  | inl back ↦ rw back v
  | inr on ↦ rw on (record {
    keyed = All-expire_all Keyed Keyed to _ (λ k t h. expire_id to _ t ∙ h) m.tickets v.keyed;
    distinct = expire_all-Distinct to _ m.tickets v.distinct;
    visitors = omega (arith, v.visitors, visitor_count-expire_all to m.config.clock_skew m.tickets);
    leases = omega (arith, v.leases, lease_count-expire_all to m.config.clock_skew m.tickets);
    rates = omega (arith, v.rates, length-drop_old-le to m.rate_times);
    remembered = omega (arith, v.remembered, length-keep-le (λ e. ltb to e.1.until) m.idempotency);
  })
]

joined-Inv :
    (key fingerprint : Text) (m : Model)
    → visitor_count m.tickets < m.config.visitor_cap
    → length m.idempotency < m.config.idempotency_cap
    → Inv m
    → Inv (joined key fingerprint m)
unfolding joined issue
joined-Inv key fingerprint m room memory v = record {
  keyed = insert-All Keyed _ _ m.tickets refl v.keyed;
  distinct = insert-Distinct _ _ m.tickets v.distinct;
  visitors = omega (arith, visitor_count-insert-le (issue m).id (issue m) m.tickets);
  leases = omega (arith, v.leases, lease_count-insert_other (issue m).id (issue m) m.tickets refl);
  rates = v.rates;
  remembered = omega (arith, length-insert-le key _ m.idempotency);
}

-- A ticket that is written over one of the same kind, under the same id.
overwrite-Inv :
    (id : Text) (t w : Ticket) (m : Model)
    → lookup id m.tickets ≡ some w
    → is_expired w.state ≡ false
    → t.id ≡ w.id
    → (is_lease t.state ≡ true → is_lease w.state ≡ true)
    → Inv m
    → Inv (record m { tickets = insert id t m.tickets })
overwrite-Inv id t w m found live same lease v = record {
  keyed =
      insert-All Keyed id t m.tickets (same ∙ All-lookup Keyed id w m.tickets v.keyed found)
        v.keyed;
  distinct = insert-Distinct id t m.tickets v.distinct;
  visitors = omega (arith, v.visitors, visitor_count-insert_over id t m.tickets w found live);
  leases = elim (Bool-cases (is_lease t.state)) [
    | inl held ↦
        omega (arith, v.leases, lease_count-insert_over id t m.tickets w found (lease held))
    | inr none' ↦ omega (arith, v.leases, lease_count-insert_other id t m.tickets none')
  ];
  rates = v.rates;
  remembered = v.remembered;
}

-- `n` more rounds of `Promote` stay within the caps.
abbrev Rounds : ℕ → Model → Type 0
Rounds n m =
    Inv m
    × (lease_count m.tickets + n ≤ m.config.lease_cap)
    × (length m.rate_times + n ≤ m.config.rate)

promote_one-Rounds :
    (n : ℕ) (c : Candidate) (m : Model)
    → Known m.tickets c
    → Rounds (suc n) m
    → Rounds n (promote_one c m).0
unfolding promote_one readied
promote_one-Rounds n c m (t, found, live, id) (v, leases, rates) =
    let e = sym (promote_one-tickets c m t found id) in
    let more =
      subst (λ x. lease_count x ≤ lease_count m.tickets + 1) e
        (lease_count-insert-le c.id (readied m t) m.tickets) in
    let longer = length-append m.rate_times (m.now ∷ []) in
    (
      record {
        keyed = subst (All Keyed) e (insert-All Keyed c.id (readied m t) m.tickets id v.keyed);
        distinct = subst Distinct e (insert-Distinct c.id (readied m t) m.tickets v.distinct);
        visitors =
            subst (λ x. visitor_count x ≤ m.config.visitor_cap) e
              (omega (
                arith,
                v.visitors,
                visitor_count-insert_over c.id (readied m t) m.tickets t found live,
              ));
        leases = omega (arith, more, leases);
        rates = omega (arith, longer, rates);
        remembered = v.remembered;
      },
      omega (arith, more, leases),
      omega (arith, longer, rates),
    )

promote-Inv : (limit : ℕ) (m : Model) → Inv m → Inv (promote limit m).0
unfolding budget
promote-Inv limit m v =
    let (k, kept) =
      promote_inv Rounds promote_one-Rounds limit m v.keyed v.distinct
        (v, omega arith, omega arith) in
    kept.0

-- Every call, on every branch, keeps the caps on visitors, leases, the rate and remembered keys.
pub step-Inv : (c : Call) (m : Model) → Inv m → Inv (step c m)
unfolding step
step-Inv (advances to) m v = advance-Inv to m v
step-Inv (joins key fingerprint) m v =
    join_cases (λ r. Inv r.0) key fingerprint m (λ _. v) (λ _ _ _. v)
      (λ _ _ room memory. joined-Inv key fingerprint m room memory v)
step-Inv (heartbeats id) m v =
    heartbeat_cases (λ r. Inv r.0) id m (λ _. v) v
      (λ t found waits. overwrite-Inv id _ t m found (ground arith) refl (λ h. h) v)
step-Inv (promotes limit) m v = promote-Inv limit m v
step-Inv (claims id) m v =
    claim_cases (λ r. Inv r.0) id m (λ _. v) (λ _ _ _ _ _. v)
      (λ t found ready _. overwrite-Inv id _ t m found (ground arith) refl (λ _. ground arith) v)
step-Inv (sets_hold held) m v = unfold set_hold in ground arith
step-Inv drains m v = unfold start_drain in ground arith
step-Inv uncertainties m v = unfold uncertain in ground arith
step-Inv new_epochs m v = unfold new_epoch visitor_count lease_count count in ground arith
step-Inv (resumes verified) m v = unfold resume in ground arith

run-Inv : (cs : List Call) (m : Model) → Inv m → Inv (run cs m)
unfolding run
run-Inv [] m v = v
run-Inv (c ∷ cs) m v = run-Inv cs (step c m) (step-Inv c m v)

-- After any history of calls on a model of a configuration that `New` accepts, the tickets are
-- filed under their ids, each once, and the caps on visitors, leases, promotions in the rate window
-- and remembered keys hold.
pub run-new-Inv : (c : Config) (cs : List Call) {m : Model} → new c ≡ ok m → Inv (run cs m)
run-new-Inv c cs h = run-Inv cs _ (new-Inv c h)
