-- ===== src/Examples/Queues.antt =====
-- internal/queue/model/model.go and internal/policy/fifo.go: a queue for two visitors with one lease.
use waiting_room.Base.{
  any, ◌+◌, ◌≤◌, ◌<◌, ◌≡◌, refl, arith, true, List, [], ◌∷◌, ◌++◌, none, some, if◌then◌else◌, Text,
  codes, text_eq, decimal, digits_onto, lookup, insert, ok, count, keep, take, length, All, map,
  min,
}
use mathlib.Core.List.{Perm}
use waiting_room.Queue.Policy.{Candidate, is_alive, eligible, sort, sorted_insert, before}
use waiting_room.Queue.Policy.Order.{IsSorted, eligible_fifo}
use waiting_room.Queue.Model.{
  Model, ticket_of, Config, Mode, State, Call, new, run, step, advance, expire_all, expire,
  drop_old, join, joined, join_new, issue, ticket_id, status, promote, promote_all, promote_one,
  budget, candidates, readied, claim, uncertain, positive_64, resume, visitor_count, lease_count,
  advances, joins, promotes, claims, uncertainties,
}
use waiting_room.Queue.Model.Invariant.{Inv, run-new-Inv}
use waiting_room.Queue.Model.Recovery.{resume_outwaits}
use waiting_room.Queue.Model.Rate.{recent, promotions_within_rate}
use waiting_room.Queue.Model.Promoting.{chosen}
use waiting_room.Queue.Model.Selection.{promote_fifo}
use waiting_room.Queue.Model.Retries.{join_retry}
use waiting_room.Queue.Model.Joining.{join_appends}

abbrev small : Config
small = record {
  visitor_cap = 2;
  idempotency_cap = 4;
  lease_cap = 1;
  rate = 1;
  idle_ttl = 600000;
  ticket_ttl = 86400000;
  ready_ttl = 120000;
  admission_ttl = 60000;
  idempotency_ttl = 600000;
  clock_skew = 1000;
}

abbrev start : Model
start = record {
  config = small;
  now = 0;
  epoch = 1;
  sequence = 0;
  mode = Mode.auto;
  unsafe_until = 0;
  cutoff = 0;
  tickets = [];
  idempotency = [];
  rate_times = [];
  promotions = [];
}

new-small : new small ≡ ok start
unfolding new
new-small = refl

abbrev ann : Text
ann = codes "ann"

abbrev bob : Text
bob = codes "bob"

-- Two visitors, one of them admitted, then a store that lost certainty for three minutes.
abbrev outage : List Call
outage =
    joins ann ann
    ∷ joins bob bob
    ∷ promotes 2
    ∷ claims (codes "1:1")
    ∷ uncertainties
    ∷ advances 181000
    ∷ []

resume_outwaits_example : lease_count (run outage start).tickets ≡ 0
unfolding resume run step advance expire_all expire drop_old join joined join_new issue ticket_id
    decimal digits_onto status promote promote_all promote_one budget candidates readied claim
    uncertain positive_64 lookup insert keep count eligible sort sorted_insert before take
    visitor_count lease_count text_eq
resume_outwaits_example =
    resume_outwaits small outage true
      (record {
        idle = omega arith;
        ticket = omega arith;
        ready = omega arith;
        idempotency = omega arith;
      })
      (tt, (tt, (tt, (tt, (tt, (omega arith, tt)))))) new-small refl

run-new-Inv_example : Inv (run outage start)
run-new-Inv_example = run-new-Inv small outage new-small

promotions_within_rate_example :
    count (recent (run outage start).epoch (run outage start).now) (run outage start).promotions ≤ 1
promotions_within_rate_example = promotions_within_rate small outage new-small

join_appends_example :
    let m' = (join ann ann start).0 in
    let t = issue start in
    (lookup t.id start.tickets ≡ none)
    × (t.state ≡ State.waiting)
    × (visitor_count m'.tickets ≡ visitor_count start.tickets + 1)
    × (visitor_count m'.tickets ≤ 2)
    × (lookup bob m'.tickets ≡ (if text_eq t.id bob then some t else lookup bob start.tickets))
    × All (λ e. e.1.sequence < t.sequence) start.tickets
unfolding join join_new joined issue ticket_id decimal digits_onto lookup insert visitor_count
    text_eq count
join_appends_example =
    join_appends ann ann bob start {m' = (join ann ann start).0} {t = issue start} tt refl refl

join_retry_example : join ann ann (joined ann ann start) ≡ (joined ann ann start, ok (issue start))
unfolding run step join joined join_new issue ticket_id decimal digits_onto status promote
    promote_all promote_one budget candidates readied claim lookup insert keep count eligible sort
    sorted_insert before take visitor_count lease_count text_eq
join_retry_example = join_retry ann ann start {m' = joined ann ann start} {t = issue start} refl

-- Both visitors wait.
abbrev waiting_two : List Call
waiting_two = joins ann ann ∷ joins bob bob ∷ []

promote_fifo_example :
    let m = run waiting_two start in
    let out = (promote 2 m).1 in
    let live = keep (is_alive m.now) (candidates m.mode m.cutoff m.tickets) in
    (map (λ t. t.id) out ≡ map (λ c. c.id) (chosen 2 m))
    × All (λ t. t.state ≡ State.ready) out
    × (rest : List Candidate) × Perm (chosen 2 m ++ rest) live
    × IsSorted (chosen 2 m ++ rest)
    × (length (chosen 2 m) ≡ min (budget 2 m) (length live))
    × (lookup (codes "1:1") (promote 2 m).0.tickets ≡ (
        if any (λ c. text_eq c.id (codes "1:1")) (chosen 2 m)
        then some (readied m (ticket_of m.tickets (codes "1:1")))
        else lookup (codes "1:1") m.tickets))
unfolding run step join joined join_new issue ticket_id decimal digits_onto status promote
    promote_all promote_one budget candidates readied claim lookup insert keep count eligible sort
    sorted_insert before take visitor_count lease_count text_eq
promote_fifo_example =
    promote_fifo 2 (run waiting_two start) (codes "1:1") (run-new-Inv small waiting_two new-small)
      refl (omega arith)

eligible_fifo_example :
    let ann_candidate : Candidate = record { id = ann; sequence = 2; expires_at = 9 } in
    let bob_candidate : Candidate = record { id = bob; sequence = 1; expires_at = 9 } in
    let cs = ann_candidate ∷ bob_candidate ∷ [] in
    (rest : List Candidate) × Perm (eligible cs 3 1 ++ rest) (keep (is_alive 3) cs)
    × IsSorted (eligible cs 3 1 ++ rest)
    × (length (eligible cs 3 1) ≡ min 1 (length (keep (is_alive 3) cs)))
eligible_fifo_example =
    eligible_fifo
      (record { id = ann; sequence = 2; expires_at = 9 }
        ∷ record { id = bob; sequence = 1; expires_at = 9 }
        ∷ [])
      3 1 (omega arith)
