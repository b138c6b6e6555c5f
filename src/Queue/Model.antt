-- ===== src/Queue/Model.antt =====
-- internal/queue/model/model.go: the deterministic model of the queue, its state and operations.
-- Times are milliseconds and counts are sizes, all natural numbers: a negative field of `Config`,
-- which `New` refuses together with 0, is not represented. The sum of `Uncertain` wraps around as an
-- int64; the other sums are exact, as the program's are while the times and the lifetimes of `Config`
-- are below 2^62. A method that changes `*Model` returns the new state beside its result.
pub mod Tickets
pub mod Cases
pub mod Promoting
pub mod Invariant
pub mod Frame
pub mod Lifetimes
pub mod Recovery
pub mod Rate
pub mod Selection
pub mod Retries
pub mod Joining
use waiting_room.Base.{
  ◌^◌, ℕ, suc, ◌+◌, ◌-◌, ◌%◌, min, max, Bool, true, false, ◌&&◌, ◌||◌, not, List, [], ◌∷◌, ◌++◌,
  Option, none, some, if◌then◌else◌, ◌==◌, ltb, leb, keep, drop, count, length, map, Text, codes,
  text_eq, decimal, lookup, insert, Result, ok, err,
}
use waiting_room.Queue.Policy.{Candidate, eligible}

abbrev pub minute : ℕ
minute = 60000

-- `unset` is the empty string, the state of Go's zero `Ticket`.
pub data State : Type 0 where
  unset waiting ready admitted expired : State

pub data Mode : Type 0 where
  auto hold draining recovery : Mode

pub data Error : Type 0 where
  capacity conflict ticket_expired not_ready unavailable drain clock : Error
  invalid_config key_required : Error

pub record Config : Type 0 where
  pub visitor_cap : ℕ
  pub idempotency_cap : ℕ
  pub lease_cap : ℕ
  pub rate : ℕ
  pub idle_ttl : ℕ
  pub ticket_ttl : ℕ
  pub ready_ttl : ℕ
  pub admission_ttl : ℕ
  pub idempotency_ttl : ℕ
  pub clock_skew : ℕ

unfoldable pub default_config : Config
default_config = record {
  visitor_cap = 10000;
  idempotency_cap = 20000;
  lease_cap = 1000;
  rate = 600;
  idle_ttl = 600000;
  ticket_ttl = 86400000;
  ready_ttl = 120000;
  admission_ttl = 900000;
  idempotency_ttl = 600000;
  clock_skew = 30000;
}

pub record Ticket : Type 0 where
  pub id : Text
  pub sequence : ℕ
  pub state : State
  pub epoch : ℕ
  pub joined_at : ℕ
  pub idle_until : ℕ
  pub absolute_until : ℕ
  pub ready_until : ℕ
  pub admission_until : ℕ
  pub jti : Text
  pub promoted_at : ℕ

pub record Idem : Type 0 where
  pub ticket_id : Text
  pub fingerprint : Text
  pub until : ℕ

pub record Promotion : Type 0 where
  pub ticket_id : Text
  pub sequence : ℕ
  pub at : ℕ
  pub epoch : ℕ

pub record Model : Type 0 where
  pub config : Config
  pub now : ℕ
  pub epoch : ℕ
  pub sequence : ℕ
  pub mode : Mode
  pub unsafe_until : ℕ
  pub cutoff : ℕ
  pub tickets : List (Text × Ticket)
  pub idempotency : List (Text × Idem)
  pub rate_times : List ℕ
  pub promotions : List Promotion

-- What a read of a missing ticket yields.
abbrev pub zero_ticket : Ticket
zero_ticket = record {
  id = [];
  sequence = 0;
  state = State.unset;
  epoch = 0;
  joined_at = 0;
  idle_until = 0;
  absolute_until = 0;
  ready_until = 0;
  admission_until = 0;
  jti = [];
  promoted_at = 0;
}

abbrev pub or_zero : Option Ticket → Ticket
or_zero none = zero_ticket
or_zero (some t) = t

abbrev pub ticket_of : List (Text × Ticket) → Text → Ticket
ticket_of tickets id = or_zero (lookup id tickets)

abbrev pub is_waiting : State → Bool
is_waiting State.waiting = true
is_waiting _ = false

abbrev pub is_expired : State → Bool
is_expired State.expired = true
is_expired _ = false

abbrev pub is_lease : State → Bool
is_lease State.ready = true
is_lease State.admitted = true
is_lease _ = false

abbrev pub is_recovery : Mode → Bool
is_recovery Mode.recovery = true
is_recovery _ = false

abbrev pub is_draining : Mode → Bool
is_draining Mode.draining = true
is_draining _ = false

abbrev pub is_auto : Mode → Bool
is_auto Mode.auto = true
is_auto _ = false

unfoldable pub new : Config → Result Error Model
new c =
    if leb c.visitor_cap 0
      || leb c.idempotency_cap 0
      || leb c.lease_cap 0
      || ltb c.visitor_cap c.lease_cap
      || leb c.rate 0
      || leb c.idle_ttl 0
      || ltb c.ticket_ttl c.idle_ttl
      || leb c.ready_ttl 0
      || ltb c.admission_ttl minute
      || ltb 3600000 c.admission_ttl
      || leb c.idempotency_ttl 0
      || ltb 30000 c.clock_skew
    then err Error.invalid_config
    else ok (record {
      config = c;
      now = 0;
      epoch = 1;
      sequence = 0;
      mode = Mode.auto;
      unsafe_until = 0;
      cutoff = 0;
      tickets = [];
      idempotency = [];
      rate_times = [];
      promotions = [];
    })

unfoldable pub visitor_count : List (Text × Ticket) → ℕ
visitor_count tickets = count (λ e. not (is_expired e.1.state)) tickets

unfoldable pub lease_count : List (Text × Ticket) → ℕ
lease_count tickets = count (λ e. is_lease e.1.state) tickets

-- The body of the loop over the tickets in `Advance`, after the clock is set.
unfoldable pub expire : ℕ → ℕ → Ticket → Ticket
expire now skew t = elim t.state [
  | State.waiting ↦ if leb (min t.idle_until t.absolute_until) now then dead else t
  | State.ready ↦ if leb t.ready_until now then dead else t
  | State.admitted ↦ if leb (t.admission_until + skew) now then dead else t
  | _ ↦ t
]
  where
    dead : Ticket
    dead = record t { state = State.expired }

unfoldable pub expire_all : ℕ → ℕ → List (Text × Ticket) → List (Text × Ticket)
unfolding expire
expire_all now skew [] = []
expire_all now skew ((k, t) ∷ m) = (k, expire now skew t) ∷ expire_all now skew m

-- `for i < len(m.rateTimes) && m.rateTimes[i] <= m.now-Minute { i++ }; m.rateTimes[i:]`
unfoldable pub drop_old : ℕ → List ℕ → List ℕ
drop_old now [] = []
drop_old now (t ∷ ts) = let rest = drop_old now ts in if leb (t + minute) now then rest else t ∷ ts

unfoldable pub advance : ℕ → Model → Result Error Model
advance to m =
    if ltb to m.now
    then err Error.clock
    else ok (record m {
      now = to;
      tickets = expire_all to m.config.clock_skew m.tickets;
      idempotency = keep (λ e. ltb to e.1.until) m.idempotency;
      rate_times = drop_old to m.rate_times;
    })

-- `fmt.Sprintf("%d:%d", epoch, sequence)`
unfoldable pub ticket_id : ℕ → ℕ → Text
ticket_id epoch sequence = decimal epoch ++ codes ":" ++ decimal sequence

abbrev is_empty : Text → Bool
is_empty [] = true
is_empty (c ∷ cs) = false

-- The ticket that `Join` issues, with the model's sequence already counted up.
unfoldable pub issue : Model → Ticket
issue m = record {
  id = ticket_id m.epoch (suc m.sequence);
  sequence = suc m.sequence;
  state = State.waiting;
  epoch = m.epoch;
  joined_at = m.now;
  idle_until = m.now + m.config.idle_ttl;
  absolute_until = m.now + m.config.ticket_ttl;
  ready_until = 0;
  admission_until = 0;
  jti = [];
  promoted_at = 0;
}

-- The writes of `Join` for a visitor that it lets in.
unfoldable pub joined : Text → Text → Model → Model
joined key fingerprint m = record m {
  sequence = suc m.sequence;
  tickets = insert (issue m).id (issue m) m.tickets;
  idempotency =
      insert key
        (record {
          ticket_id = (issue m).id;
          fingerprint = fingerprint;
          until = m.now + m.config.idempotency_ttl;
        })
        m.idempotency;
}

-- The part of `Join` for a key that is not remembered.
unfoldable pub join_new : Text → Text → Model → Model × Result Error Ticket
join_new key fingerprint m =
    if is_recovery m.mode
    then (m, err Error.unavailable)
    else if is_draining m.mode
    then (m, err Error.drain)
    else if leb m.config.visitor_cap (visitor_count m.tickets)
        || leb m.config.idempotency_cap (length m.idempotency)
    then (m, err Error.capacity)
    else (joined key fingerprint m, ok (issue m))

unfoldable pub join : Text → Text → Model → Model × Result Error Ticket
join key fingerprint m =
    if is_empty key || is_empty fingerprint
    then (m, err Error.key_required)
    else elim (lookup key m.idempotency) [
      | some old ↦
          if not (text_eq old.fingerprint fingerprint)
          then (m, err Error.conflict)
          else (m, ok (ticket_of m.tickets old.ticket_id))
      | none ↦ join_new key fingerprint m
    ]

unfoldable pub status : Text → Model → Result Error Ticket
status id m = elim (lookup id m.tickets) [
  | none ↦ err Error.ticket_expired
  | some t ↦ if is_expired t.state then err Error.ticket_expired else ok t
]

-- A waiting ticket after a heartbeat.
abbrev pub refreshed : Model → Ticket → Ticket
refreshed m t = record t { idle_until = min (m.now + m.config.idle_ttl) t.absolute_until }

-- A ready ticket after its claim.
abbrev pub claimed : Ticket → Ticket
claimed t = record t { state = State.admitted }

unfoldable pub heartbeat : Text → Model → Model × Result Error (Unit {0})
heartbeat id m = elim (status id m) [
  | err e ↦ (m, err e)
  | ok t ↦
      if is_recovery m.mode
      then (m, err Error.unavailable)
      else if is_waiting t.state
      then (record m { tickets = insert id (refreshed m t) m.tickets }, ok tt)
      else (m, ok tt)
]

-- The candidates that `Promote` hands to the policy.
abbrev pub is_candidate : Mode → ℕ → Ticket → Bool
is_candidate mode cutoff t = is_waiting t.state && (not (is_draining mode) || leb t.sequence cutoff)

unfoldable pub candidates : Mode → ℕ → List (Text × Ticket) → List Candidate
candidates mode cutoff [] = []
candidates mode cutoff ((k, t) ∷ m) =
    let rest = candidates mode cutoff m in
    if is_candidate mode cutoff t
    then record { id = t.id; sequence = t.sequence; expires_at = min t.idle_until t.absolute_until }
      ∷ rest
    else rest

-- A ticket as `Promote` marks it.
unfoldable pub readied : Model → Ticket → Ticket
readied m t =
    let until = m.now + m.config.admission_ttl in
    record t {
      state = State.ready;
      admission_until = until;
      ready_until = min (m.now + m.config.ready_ttl) until;
      jti = codes "admission:" ++ t.id;
    }

-- One round of the loop of `Promote`.
unfoldable pub promote_one : Candidate → Model → Model × Ticket
promote_one c m =
    let t = readied m (ticket_of m.tickets c.id) in
    (
      record m {
        tickets = insert t.id t m.tickets;
        rate_times = m.rate_times ++ m.now ∷ [];
        promotions =
            m.promotions
            ++ record { ticket_id = t.id; sequence = t.sequence; at = m.now; epoch = t.epoch } ∷ [];
      },
      t,
    )

unfoldable pub promote_all : List Candidate → Model → Model × List Ticket
promote_all [] m = (m, [])
promote_all (c ∷ cs) m =
    let rest = promote_all cs (promote_one c m).0 in (rest.0, (promote_one c m).1 ∷ rest.1)

-- How many tickets `Promote` may select. Where the source's difference is negative it selects
-- none, as it does at 0, where subtraction on ℕ stops.
unfoldable pub budget : ℕ → Model → ℕ
budget limit m =
    min limit
      (min (m.config.lease_cap - lease_count m.tickets) (m.config.rate - length m.rate_times))

unfoldable pub promote : ℕ → Model → Model × List Ticket
promote limit m =
    if not (is_auto m.mode) && not (is_draining m.mode)
    then (m, [])
    else if leb (budget limit m) 0
    then (m, [])
    else promote_all (eligible (candidates m.mode m.cutoff m.tickets) m.now (budget limit m)) m

unfoldable pub claim : Text → Model → Model × Result Error Ticket
claim id m = elim (status id m) [
  | err e ↦ (m, err e)
  | ok t ↦ if is_recovery m.mode then (m, err Error.unavailable) else elim t.state [
    | State.admitted ↦
        if leb t.admission_until m.now then (m, err Error.ticket_expired) else (m, ok t)
    | State.ready ↦ (record m { tickets = insert id (claimed t) m.tickets }, ok (claimed t))
    | _ ↦ (m, err Error.not_ready)
  ]
]

unfoldable pub set_hold : Bool → Model → Model × Result Error (Unit {0})
set_hold held m =
    if is_recovery m.mode
    then (m, err Error.unavailable)
    else (record m { mode = if held then Mode.hold else Mode.auto }, ok tt)

unfoldable pub start_drain : Model → Model × Result Error (Unit {0})
start_drain m =
    if is_recovery m.mode
    then (m, err Error.unavailable)
    else (record m { mode = Mode.draining; cutoff = m.sequence }, ok tt)

-- The sum of times as an int64, where a negative value, which is below every time, counts as 0.
unfoldable pub positive_64 : ℕ → ℕ
positive_64 n = let r = n % 2 ^ 64 in if ltb r (2 ^ 63) then r else 0

unfoldable pub uncertain : Model → Model × ℕ
uncertain m =
    let longest = max (max m.config.admission_ttl m.config.ready_ttl) minute in
    let until = max m.unsafe_until (positive_64 (m.now + longest + m.config.clock_skew)) in
    (record m { mode = Mode.recovery; unsafe_until = until }, until)

unfoldable pub resume : Bool → Model → Model × Result Error (Unit {0})
resume verified m =
    if not (is_recovery m.mode) || not verified || ltb m.now m.unsafe_until
    then (m, err Error.unavailable)
    else (record m { mode = Mode.auto }, ok tt)

unfoldable pub new_epoch : Model → Model
new_epoch m = record m {
  epoch = suc m.epoch;
  sequence = 0;
  tickets = [];
  idempotency = [];
  rate_times = [];
  unsafe_until = 0;
  mode = Mode.hold;
}

-- The calls that change a model.
pub data Call : Type 0 where
  advances : ℕ → Call
  joins : Text → Text → Call
  heartbeats : Text → Call
  promotes : ℕ → Call
  claims : Text → Call
  sets_hold : Bool → Call
  drains uncertainties new_epochs : Call
  resumes : Bool → Call

abbrev pub after : Model → Result Error Model → Model
after m (ok m') = m'
after m (err e) = m

unfoldable pub step : Call → Model → Model
step (advances to) m = after m (advance to m)
step (joins key fingerprint) m = (join key fingerprint m).0
step (heartbeats id) m = (heartbeat id m).0
step (promotes limit) m = (promote limit m).0
step (claims id) m = (claim id m).0
step (sets_hold held) m = (set_hold held m).0
step drains m = (start_drain m).0
step uncertainties m = (uncertain m).0
step new_epochs m = new_epoch m
step (resumes verified) m = (resume verified m).0

-- A history of calls, the first one first.
unfoldable pub run : List Call → Model → Model
unfolding step
run [] m = m
run (c ∷ cs) m = run cs (step c m)
