-- ===== src/Queue/Model/Rate.antt =====
-- internal/queue/model/model.go: the rolling minute of promotions.
use waiting_room.Base.{
  ℕ, ◌==◌, All-append, count-append, count-le-length, suc, ◌+◌, ◌≤◌, ◌≡◌, refl, ap, sym, subst, ◌∙◌,
  Bool, true, false, ◌&&◌, List, [], ◌∷◌, ◌++◌, count, some, arith, if◌then◌else◌, All, All-map,
  Text, lookup, insert, Bool-cases, inl, inr, ◌⊎◌, insert-All, All-lookup, ok, ltb,
}
use waiting_room.Queue.Model.Tickets.{All-expire_all}
use waiting_room.Queue.Model.Promoting.{Known, promote_one-tickets, promote_inv}
use waiting_room.Queue.Model.Cases.{
  set_hold_cases, start_drain_cases, resume_cases, heartbeat_cases, claim_cases, join_cases,
}
use waiting_room.Queue.Model.Invariant.{Inv, step-Inv, new-Inv}
use waiting_room.Queue.Model.Frame.{run_config}
use waiting_room.Queue.Policy.{Candidate}
use waiting_room.Queue.Model.{
  Model, Promotion, ticket_of, or_zero, Ticket, Call, Config, readied, issue, promote_one, drop_old,
  expire, new, advance, joined, uncertain, new_epoch, step, run, after, minute, advances, joins,
  heartbeats, promotes, claims, sets_hold, drains, uncertainties, new_epochs, resumes,
}

-- A promotion of the epoch in the minute before `at`.
abbrev pub recent : ℕ → ℕ → Promotion → Bool
recent epoch at p = p.epoch == epoch && ltb at (p.at + minute)

abbrev fresh : ℕ → ℕ → Bool
fresh at t = ltb at (t + minute)

-- The times that the rate guard keeps cover the log of the epoch at every later instant.
abbrev pub Covered : Model → Type 0
Covered m =
    All (λ p. p.epoch ≤ m.epoch) m.promotions
    × All (λ (e : Text × Ticket). e.1.epoch ≤ m.epoch) m.tickets
    × ((at : ℕ)
        → m.now ≤ at
        → count (recent m.epoch at) m.promotions ≤ count (fresh at) m.rate_times)

count-fresh-drop_old :
    (now at : ℕ) (ts : List ℕ) → now ≤ at → count (fresh at) (drop_old now ts) ≡ count (fresh at) ts
unfolding count drop_old
count-fresh-drop_old now at [] h = refl
count-fresh-drop_old now at (t ∷ ts) h = ground (arith, count-fresh-drop_old now at ts h)

-- A later epoch starts with no promotion of its own.
count_recent-later :
    (epoch at : ℕ) (ps : List Promotion)
    → All (λ p. p.epoch ≤ epoch) ps
    → count (recent (suc epoch) at) ps ≡ 0
unfolding count
count_recent-later epoch at [] h = refl
count_recent-later epoch at (p ∷ ps) h = ground (arith, count_recent-later epoch at ps h.1)

expire_epoch : (now skew : ℕ) (t : Ticket) → (expire now skew t).epoch ≡ t.epoch
unfolding expire
expire_epoch now skew t = ground arith

advance-Covered : (to : ℕ) (m : Model) → Covered m → Covered (after m (advance to m))
unfolding advance
advance-Covered to m v = elim (Bool-cases (ltb to m.now)) [
  | inl back ↦ rw back v
  | inr on ↦ rw on (
      (
        v.0,
        All-expire_all (λ e. e.1.epoch ≤ m.epoch) (λ e. e.1.epoch ≤ m.epoch) to _
            (λ k t h. omega (arith, expire_epoch to m.config.clock_skew t)) m.tickets v.1,
        λ at h. rw (count-fresh-drop_old to at m.rate_times h) (v.2 at (ground arith)),
      ))
]

overwrite-Covered :
    (id : Text) (t w : Ticket) (m : Model)
    → lookup id m.tickets ≡ some w
    → t.epoch ≡ w.epoch
    → Covered m
    → Covered (record m { tickets = insert id t m.tickets })
overwrite-Covered id t w m found same v = (
  v.0,
  insert-All (λ e. e.1.epoch ≤ m.epoch) id t m.tickets
      (omega (arith, All-lookup (λ e. e.1.epoch ≤ m.epoch) id w m.tickets v.1 found)) v.1,
  v.2,
)

count_one {ℓ} : {A : Type ℓ} (p : A → Bool) (x : A) → count p (x ∷ []) ≡ (if p x then 1 else 0)
unfolding count
count_one p x = ground arith

covers_next :
    {A B : Type 0} (p : A → Bool) (q : B → Bool) (xs : List A) (ys : List B) (x : A) (y : B)
    → count p xs ≤ count q ys
    → (p x ≡ false) ⊎ (q y ≡ true)
    → count p (xs ++ x ∷ []) ≤ count q (ys ++ y ∷ [])
covers_next p q xs ys x y h e =
    ground
      (arith, count-append p xs (x ∷ []), count-append q ys (y ∷ []), count_one p x, count_one q y)

promote_one-Covered :
    (n : ℕ) (c : Candidate) (m : Model)
    → Known m.tickets c
    → Covered m
    → Covered (promote_one c m).0
unfolding promote_one readied
promote_one-Covered n c m (t, found, live, id) v =
    let old = All-lookup (λ e. e.1.epoch ≤ m.epoch) c.id t m.tickets v.1 found in
    let is_t : ticket_of m.tickets c.id ≡ t = (ap or_zero found) in
    (
      All-append _ m.promotions _ v.0 (omega (arith, old, ap (λ (x : Ticket). x.epoch) is_t), tt),
      subst (All (λ e. e.1.epoch ≤ m.epoch)) (sym (promote_one-tickets c m t found id))
          (insert-All (λ e. e.1.epoch ≤ m.epoch) c.id (readied m t) m.tickets old v.1),
      λ at h.
          covers_next (recent m.epoch at) (fresh at) m.promotions m.rate_times _ m.now (v.2 at h)
            (ground arith),
    )

step-Covered : (c : Call) (m : Model) → Inv m → Covered m → Covered (step c m)
unfolding step
step-Covered (advances to) m i v = advance-Covered to m v
step-Covered (joins key fingerprint) m i v =
    join_cases (λ r. Covered r.0) key fingerprint m (λ _. v) (λ _ _ _. v)
      (λ _ _ _ _.
        unfold joined issue in
        (v.0, insert-All (λ e. e.1.epoch ≤ m.epoch) _ _ m.tickets (omega arith) v.1, v.2))
step-Covered (heartbeats id) m i v =
    heartbeat_cases (λ r. Covered r.0) id m (λ _. v) v
      (λ t found waits. overwrite-Covered id _ t m found refl v)
step-Covered (promotes limit) m i v =
    (promote_inv (λ _. Covered) promote_one-Covered limit m i.keyed i.distinct v).1
step-Covered (claims id) m i v =
    claim_cases (λ r. Covered r.0) id m (λ _. v) (λ _ _ _ _ _. v)
      (λ t found ready _. overwrite-Covered id _ t m found refl v)
step-Covered (sets_hold held) m i v = set_hold_cases (λ r. Covered r.0) held m v v
step-Covered drains m i v = start_drain_cases (λ r. Covered r.0) m v v
step-Covered uncertainties m i v = unfold uncertain in v
step-Covered new_epochs m i v =
    unfold new_epoch in
    (
      All-map _ (λ p. p.epoch ≤ suc m.epoch) (λ p h. omega arith) m.promotions v.0,
      tt,
      λ at h. omega (arith, count_recent-later m.epoch at m.promotions v.0),
    )
step-Covered (resumes verified) m i v = resume_cases (λ r. Covered r.0) verified m v v

run-Covered : (cs : List Call) (m : Model) → Inv m → Covered m → Inv (run cs m) × Covered (run cs m)
unfolding run
run-Covered [] m i v = (i, v)
run-Covered (c ∷ cs) m i v = run-Covered cs (step c m) (step-Inv c m i) (step-Covered c m i v)

new_empty :
    (c : Config) {m : Model}
    → new c ≡ ok m
    → (m.config ≡ c) × (m.tickets ≡ []) × (m.promotions ≡ []) × (m.rate_times ≡ [])
unfolding new
new_empty c h = ground arith

new-Covered : (c : Config) {m : Model} → new c ≡ ok m → Covered m
unfolding count
new-Covered c h =
    let (same, tickets, promotions, times) = new_empty c h in
    (rw promotions tt, rw tickets tt, λ at k. rw (promotions, times) (omega arith))

-- After any history of calls on a model that `New` made, at most `Rate` promotions of the current
-- epoch lie in the last minute.
pub promotions_within_rate :
    (c : Config) (cs : List Call) {m : Model}
    → new c ≡ ok m
    → let m' = run cs m in count (recent m'.epoch m'.now) m'.promotions ≤ c.rate
promotions_within_rate c cs {m} h =
    let (i, v) = run-Covered cs m (new-Inv c h) (new-Covered c h) in
    let same = run_config cs m ∙ (new_empty c h).0 in
    let guard = count-le-length (fresh (run cs m).now) (run cs m).rate_times in
    let cap = ap (λ (x : Config). x.rate) same in
    omega (arith, v.2 (run cs m).now (omega arith), guard, i.rates, cap)
