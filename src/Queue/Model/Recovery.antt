-- ===== src/Queue/Model/Recovery.antt =====
-- internal/queue/model/model.go: when an uncertain store may resume.
use waiting_room.Base.{
  ◌^◌, ◌≤◌, ◌<◌, ◌≡◌, refl, Bool, true, List, [], ◌∷◌, count, arith, All, Text, ok,
}
use waiting_room.Queue.Model.Invariant.{new-Inv}
use waiting_room.Queue.Model.Lifetimes.{IsEarly, IsTimely, Lawful, HasTimes, run-Lawful}
use waiting_room.Queue.Model.{
  Model, Ticket, Call, Config, is_recovery, lease_count, new, resume, run,
}

-- The lifetimes of a configuration are below 2^61.
pub record IsModest (c : Config) : Type 0 where
  pub idle : c.idle_ttl < 2 ^ 61
  pub ticket : c.ticket_ttl < 2 ^ 61
  pub ready : c.ready_ttl < 2 ^ 61
  pub idempotency : c.idempotency_ttl < 2 ^ 61

new-HasTimes : (c : Config) {m : Model} → new c ≡ ok m → HasTimes m.config × (m.tickets ≡ [])
unfolding new
new-HasTimes c h = ground arith

new-IsEarly : (c : Config) {m : Model} → IsModest c → new c ≡ ok m → IsEarly m
unfolding new
new-IsEarly c modest h = ground (arith, modest.ready)

no_lease :
    (m : Model)
    → is_recovery m.mode ≡ true
    → m.unsafe_until ≤ m.now
    → (ts : List (Text × Ticket)) → All (Lawful m) ts
    → lease_count ts ≡ 0
unfolding lease_count count
no_lease m r over [] h = refl
no_lease m r over ((k, t) ∷ ts) h = ground (arith, no_lease m r over ts h.1)

resume_ok :
    (verified : Bool) (m : Model)
    → (resume verified m).1 ≡ ok tt
    → (is_recovery m.mode ≡ true) × (m.unsafe_until ≤ m.now)
unfolding resume
resume_ok verified m h = ground arith

-- Let the lifetimes of the configuration be below 2^61. After any history of calls on the model that
-- `New` made of it, whatever outages it holds and with every clock below 2^62, `Resume` succeeds only where no ticket holds a lease, ready or admitted: a store that lost certainty
-- waits until each has run out, leeway included.
pub resume_outwaits :
    (c : Config) (cs : List Call) (verified : Bool) {m : Model}
    → IsModest c
    → All IsTimely cs
    → new c ≡ ok m
    → (resume verified (run cs m)).1 ≡ ok tt
    → lease_count (run cs m).tickets ≡ 0
resume_outwaits c cs verified {m} modest timely h done =
    let (times, empty) = new-HasTimes c h in
    let (v, laws) =
      run-Lawful cs m timely (new-IsEarly c modest h) times (new-Inv c h) (rw empty tt) in
    let (held, over) = resume_ok verified (run cs m) done in
    no_lease (run cs m) held over (run cs m).tickets laws
