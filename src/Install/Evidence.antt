-- ===== src/Install/Evidence.antt =====
-- internal/installplan/preflight/preflight.go: what a report without a blocking check vouches for.
use waiting_room.Base.{
  ℕ, ◌-◌, ◌≤◌, ◌≡◌, ◌≢◌, inl, inr, refl, ap, ◌∙◌, subst, arith, Bool-cases, Option-cases, Bool,
  true, false, not, ◌&&◌, ◌||◌, List, [], ◌∷◌, ◌++◌, Option, none, some, ◌==◌, if◌then◌else◌, Text,
  text_eq, text_eq_iff, all, any, if_cases,
}
use waiting_room.Base.Int.{ℤ, pos, ltb_ℤ, leb_ℤ, ◌≤ℤ◌, ◌<ℤ◌}
use waiting_room.Install.Plan.{Input, high_scale}
use waiting_room.Install.Preflight.{
  Status, CheckId, Code, Stamp, ClockEvidence, StoreEvidence, OriginEvidence, EventSnapshot, Event,
  Replicas, Observations, Check, Report, is_blocking, is_pass, is_fail, check, fresh, beyond,
  clock_verdict, known_method, clock, probe, store_status, store, bad_replicas, not_scaled,
  not_all_ready, sample_verdict, lead, sample, event_checkpoint, origin_of, high_checks, ha_record,
  event_checks, standard_checks, checks_of, evaluate, digest_matches, is_digest,
}

abbrev pub IsGoodClock : Text → ℕ → ClockEvidence → Type 0
IsGoodClock pd now e =
    (fresh e.stamp pd now ≡ true)
    × (known_method e.method ≡ true)
    × (e.synchronized ≡ true)
    × (beyond 5000000000 e.offset ≡ false)

clock_verdict_clear :
    (e : ClockEvidence)
    → is_blocking (clock_verdict e).0 ≡ false
    → (e.synchronized ≡ true) × (beyond 5000000000 e.offset ≡ false)
unfolding clock_verdict
clock_verdict_clear e b = ground arith

clock_clear :
    (pd : Text) (now : ℕ) (o : Option ClockEvidence)
    → (clock pd now o).blocks_activation ≡ false
    → (e : ClockEvidence) × (o ≡ some e) × IsGoodClock pd now e
unfolding clock check
clock_clear pd now none b = absurd cc
clock_clear pd now (some e) b = (e, refl, ground (arith, clock_verdict_clear e))

-- The loop over a store's statuses, which stops at a failure, comes to what the statuses say in any
-- order: failed if one failed, else as found so far if all passed, else unverified.
pub store_status_lem :
    (found : Status) (ss : List Status)
    → store_status found ss ≡ (
        if any is_fail ss then Status.fail else if all is_pass ss then found else Status.unverified)
unfolding store_status any all
store_status_lem found [] = refl
store_status_lem found (s ∷ ss) =
    ground (arith, store_status_lem (if is_pass s then found else Status.unverified) ss)

abbrev pub tested : StoreEvidence → Bool → List Status
tested e high =
    (e.authentication ∷ e.role ∷ e.read_write ∷ [])
    ++ (if high then e.tls ∷ e.connection_switch ∷ [] else [])

probe_clear :
    (id : CheckId) (s : Status) (st : Stamp)
    → (probe id s st).blocks_activation ≡ false
    → is_pass s ≡ true
unfolding probe check
probe_clear id Status.pass st b = refl
probe_clear id Status.fail st b = absurd cc
probe_clear id Status.warn st b = absurd cc
probe_clear id Status.unverified st b = absurd cc
probe_clear id Status.not_due st b = absurd cc
probe_clear id Status.not_applicable st b = absurd cc
probe_clear id Status.absent st b = absurd cc

store_clear :
    (id : CheckId) (pd : Text) (now : ℕ) (o : Option StoreEvidence) (high : Bool)
    → (store id pd now o high).blocks_activation ≡ false
    → (e : StoreEvidence) × (o ≡ some e)
      × (fresh e.stamp pd now ≡ true)
      × (all is_pass (tested e high) ≡ true)
unfolding store check
store_clear id pd now none high b = absurd cc
store_clear id pd now (some e) high b = elim (Bool-cases (fresh e.stamp pd now)) [
  | inl f ↦ (
    e,
    refl,
    f,
    ground (
      arith,
      store_status_lem Status.pass (tested e high),
      probe_clear id (store_status Status.pass (tested e high)) e.stamp,
    ),
  )
  | inr f ↦ absurd (ground arith)
]

origin_clear :
    (pd : Text) (now : ℕ) (o : Option OriginEvidence)
    → (origin_of pd now o).blocks_activation ≡ false
    → (e : OriginEvidence) × (o ≡ some e)
      × (fresh e.stamp pd now ≡ true)
      × (is_pass e.active_probe ≡ true)
unfolding origin_of check
origin_clear pd now none b = absurd cc
origin_clear pd now (some e) b =
    (e, refl, ground arith, ground (arith, probe_clear CheckId.origin_check e.active_probe e.stamp))

-- The replica counts that both checkpoints ask for.
pub record IsScaled (s : EventSnapshot) : Type 0 where
  pub gateway_floor : pos 8 ≤ℤ s.gateway.ready
  pub gateway_order : s.gateway.ready ≤ℤ s.gateway.desired
  pub gateway_ceiling : s.gateway.desired ≤ℤ pos 12
  pub coordinator_floor : pos 4 ≤ℤ s.coordinator.ready
  pub coordinator_order : s.coordinator.ready ≤ℤ s.coordinator.desired
  pub coordinator_ceiling : s.coordinator.desired ≤ℤ pos 8
  pub control_floor : pos 2 ≤ℤ s.control.desired
  pub control_ceiling : s.control.desired ≤ℤ pos 2

-- What readiness asks for in addition.
pub record IsReady (s : EventSnapshot) : Type 0 where
  pub gateway_ready : s.gateway.desired ≤ℤ s.gateway.ready
  pub coordinator_ready : s.coordinator.desired ≤ℤ s.coordinator.ready
  pub control_ready : s.control.desired ≤ℤ s.control.ready
  pub measured : pos 1 ≤ℤ s.rtt_samples
  pub rtt_measured : pos 0 <ℤ s.valkey_p95_rtt
  pub rtt_bound : s.valkey_p95_rtt <ℤ pos 2000000

floor : (x : ℤ) (n : ℕ) → ltb_ℤ x (pos n) ≡ false → pos n ≤ℤ x
floor x n h = ground arith

ceiling : (x : ℤ) (n : ℕ) → ltb_ℤ (pos n) x ≡ false → x ≤ℤ pos n
ceiling x n h = ground arith

all_ready : (r : Replicas) → not_all_ready r ≡ false → r.desired ≤ℤ r.ready
all_ready r h = ground arith

above : (x : ℤ) (n : ℕ) → leb_ℤ x (pos n) ≡ false → pos n <ℤ x
above x n h = ground arith

below : (x : ℤ) (n : ℕ) → leb_ℤ (pos n) x ≡ false → x <ℤ pos n
below x n h = ground arith

or_false : (a b : Bool) → (a || b) ≡ false → (a ≡ false) × (b ≡ false)
or_false true b h = absurd cc
or_false false b h = (refl, h)

or_false₃ : (a b c : Bool) → (a || b || c) ≡ false → (a ≡ false) × (b ≡ false) × (c ≡ false)
or_false₃ a b c h = ground arith

is_ready :
    (ready : Bool) (s : EventSnapshot)
    → ready ≡ true
    → (ready && (not_all_ready s.gateway || not_all_ready s.coordinator || not_all_ready s.control))
      ≡ false
    → (ready && (ltb_ℤ s.rtt_samples (pos 1) || leb_ℤ s.valkey_p95_rtt (pos 0))) ≡ false
    → (ready && leb_ℤ (pos 2000000) s.valkey_p95_rtt) ≡ false
    → IsReady s
is_ready false s r _ _ _ = absurd cc
is_ready true s r rolled measured slow =
    let (g, c, k) =
      or_false₃ (not_all_ready s.gateway) (not_all_ready s.coordinator) (not_all_ready s.control)
        rolled in
    let (m, t) = or_false (ltb_ℤ s.rtt_samples (pos 1)) (leb_ℤ s.valkey_p95_rtt (pos 0)) measured in
    record {
      gateway_ready = all_ready s.gateway g;
      coordinator_ready = all_ready s.coordinator c;
      control_ready = all_ready s.control k;
      measured = floor s.rtt_samples 1 m;
      rtt_measured = above s.valkey_p95_rtt 0 t;
      rtt_bound = below s.valkey_p95_rtt 2000000 slow;
    }

unblocked :
    (b : Bool) (x y : Status × Code)
    → is_blocking x.0 ≡ true
    → is_blocking (if b then x else y).0 ≡ false
    → (b ≡ false) × (is_blocking y.0 ≡ false)
unblocked true x y k h = absurd cc
unblocked false x y k h = (refl, h)

ordered : (r : Replicas) → bad_replicas r ≡ false → r.ready ≤ℤ r.desired
ordered r h = ground arith

or_false₄ :
    (a b c d e f g i : Bool)
    → (a || b || c || d || e || f || g || i) ≡ false
    → ((a ≡ false) × (b ≡ false))
      × ((c ≡ false) × (d ≡ false))
      × ((e ≡ false) × (f ≡ false))
      × ((g ≡ false) × (i ≡ false))
or_false₄ a b c d e f g i h = ground arith

is_scaled :
    (s : EventSnapshot)
    → (bad_replicas s.gateway || bad_replicas s.coordinator || bad_replicas s.control) ≡ false
    → not_scaled s ≡ false
    → IsScaled s
is_scaled s bad h =
    let (g, c, k) =
      or_false₃ (bad_replicas s.gateway) (bad_replicas s.coordinator) (bad_replicas s.control)
        bad in
    let (h12, h34, h56, h78) =
      or_false₄ (ltb_ℤ s.gateway.desired (pos 8)) (ltb_ℤ (pos 12) s.gateway.desired)
        (ltb_ℤ s.coordinator.desired (pos 4)) (ltb_ℤ (pos 8) s.coordinator.desired)
        (ltb_ℤ s.control.desired (pos 2)) (ltb_ℤ (pos 2) s.control.desired)
        (ltb_ℤ s.gateway.ready (pos 8)) (ltb_ℤ s.coordinator.ready (pos 4)) h in
    record {
      gateway_floor = floor s.gateway.ready 8 h78.0;
      gateway_order = ordered s.gateway g;
      gateway_ceiling = ceiling s.gateway.desired 12 h12.1;
      coordinator_floor = floor s.coordinator.ready 4 h78.1;
      coordinator_order = ordered s.coordinator c;
      coordinator_ceiling = ceiling s.coordinator.desired 8 h34.1;
      control_floor = floor s.control.desired 2 h56.0;
      control_ceiling = ceiling s.control.desired 2 h56.1;
    }

sample_clear :
    (ready : Bool) (s : EventSnapshot)
    → is_blocking (sample_verdict ready s).0 ≡ false
    → (IsScaled s × (ready ≡ true → IsReady s))
unfolding sample_verdict
sample_clear ready s b =
    let (bad, b) = unblocked _ _ _ refl b in
    let (scaled, b) = unblocked _ _ _ refl b in
    let (rolled, b) = unblocked _ _ _ refl b in
    let (measured, b) = unblocked _ _ _ refl b in
    let (slow, b) = unblocked _ _ _ refl b in
    (is_scaled s bad scaled, λ r. is_ready ready s r rolled measured slow)

-- A sample of an event's checkpoint that was taken in the minute before the deadline.
abbrev pub IsTimely : Text → Event → Bool → ℕ → EventSnapshot → Type 0
IsTimely pd e ready now s =
    (sample ready e ≡ some s)
    × (text_eq s.event_digest e.digest ≡ true)
    × (fresh s.stamp pd (e.admit_at - lead ready) ≡ true)
    × (e.admit_at - lead ready ≤ now)

abbrev pub HasCheckpoint : Text → ℕ → Event → Bool → Type 0
HasCheckpoint pd now e ready =
    (s : EventSnapshot) × IsTimely pd e ready now s × (IsScaled s × (ready ≡ true → IsReady s))

checkpoint_clear :
    (pd : Text) (now : ℕ) (e : Event) (ready : Bool)
    → (event_checkpoint pd now e ready).blocks_activation ≡ false
    → HasCheckpoint pd now e ready
unfolding event_checkpoint check
checkpoint_clear pd now e ready b = elim (Option-cases (sample ready e)) [
  | inl none' ↦ absurd (ground arith)
  | inr (s, some') ↦
      (s, (some', ground arith, ground arith, ground arith), sample_clear ready s (ground arith))
]

any-false :
    (c : Check) (cs : List Check)
    → any (λ d. d.blocks_activation) (c ∷ cs) ≡ false
    → (c.blocks_activation ≡ false) × (any (λ d. d.blocks_activation) cs ≡ false)
unfolding any
any-false c cs h = or_false _ _ h

-- What the high-scale profile asks for in addition.
abbrev pub IsHighClear : Text → ℕ → Observations → Type 0
IsHighClear pd now o =
    (o.ha_record_acknowledged ≡ true)
    × ((e : Event) × (o.event ≡ some e)
        × HasCheckpoint pd now e false
        × HasCheckpoint pd now e true)

ha_record_clear :
    (o : Observations) → (ha_record o).blocks_activation ≡ false → o.ha_record_acknowledged ≡ true
unfolding ha_record check
ha_record_clear o b = ground arith

event_clear :
    (pd : Text) (now : ℕ) (o : Option Event)
    → any (λ c. c.blocks_activation) (event_checks pd now o) ≡ false
    → (e : Event) × (o ≡ some e) × HasCheckpoint pd now e false × HasCheckpoint pd now e true
unfolding event_checks check any
event_clear pd now none h = absurd cc
event_clear pd now (some e) h =
    let (pre, rest) =
      any-false (event_checkpoint pd now e false) (event_checkpoint pd now e true ∷ []) h in
    (
      e,
      refl,
      checkpoint_clear pd now e false pre,
      checkpoint_clear pd now e true (any-false (event_checkpoint pd now e true) [] rest).0,
    )

high_clear :
    (pd : Text) (now : ℕ) (o : Observations)
    → any (λ c. c.blocks_activation) (high_checks pd now o) ≡ false
    → IsHighClear pd now o
unfolding high_checks ha_record
high_clear pd now o h =
    let (record', rest) = any-false (ha_record o) (event_checks pd now o.event) h in
    (ha_record_clear o record', event_clear pd now o.event rest)

-- What both profiles ask for.
pub record IsClear (pd : Text) (now : ℕ) (o : Observations) (high : Bool) : Type 0 where
  pub clock_good : (e : ClockEvidence) × (o.clock ≡ some e) × IsGoodClock pd now e
  pub postgresql_good :
      (e : StoreEvidence) × (o.postgresql ≡ some e)
      × (fresh e.stamp pd now ≡ true)
      × (all is_pass (tested e high) ≡ true)
  pub valkey_good :
      (e : StoreEvidence) × (o.valkey ≡ some e)
      × (fresh e.stamp pd now ≡ true)
      × (all is_pass (tested e high) ≡ true)
  pub origin_good :
      (e : OriginEvidence) × (o.origin ≡ some e)
      × (fresh e.stamp pd now ≡ true)
      × (is_pass e.active_probe ≡ true)
  pub high_good : high ≡ true → IsHighClear pd now o

last_checks : Bool → Text → ℕ → Observations → List Check
last_checks high pd now o = if high then high_checks pd now o else standard_checks

checks-IsClear :
    (high : Bool) (pd : Text) (now : ℕ) (o : Observations)
    → any (λ c. c.blocks_activation) (checks_of high pd now o) ≡ false
    → IsClear pd now o high
unfolding checks_of last_checks
checks-IsClear high pd now o h =
    let p = store CheckId.postgresql_check pd now o.postgresql high in
    let v = store CheckId.valkey_check pd now o.valkey high in
    let g = origin_of pd now o.origin in
    let (h1, h) = any-false (clock pd now o.clock) (p ∷ v ∷ g ∷ last_checks high pd now o) h in
    let (h2, h) = any-false p (v ∷ g ∷ last_checks high pd now o) h in
    let (h3, h) = any-false v (g ∷ last_checks high pd now o) h in
    let (h4, h) = any-false g (last_checks high pd now o) h in
    record {
      clock_good = clock_clear pd now o.clock h1;
      postgresql_good = store_clear CheckId.postgresql_check pd now o.postgresql high h2;
      valkey_good = store_clear CheckId.valkey_check pd now o.valkey high h3;
      origin_good = origin_clear pd now o.origin h4;
      high_good = λ e. high_clear pd now o (
          subst
            (λ b.
              any (λ c. c.blocks_activation) (if b then high_checks pd now o else standard_checks)
              ≡ false)
            e h);
    }

is_digest_sound :
    (digest : Input → Option Text) (plan : Input) (pd : Text)
    → is_digest digest plan pd ≡ true
    → digest plan ≡ some pd
is_digest_sound digest plan pd h = elim (Option-cases (digest plan)) [
  | inl none' ↦ absurd (ground arith)
  | inr (d, some') ↦ some' ∙ ap some ((text_eq_iff d pd).0 (ground arith))
]

-- If the report on an input has no blocking check then its context was valid and the digest is the
-- plan's; the clock evidence, both stores' and the origin's are from the last minute for this plan,
-- the clock is synchronized within five seconds, and every status that the profile asks of the
-- stores and the origin passed. For the high-scale profile the operator record is there too, and
-- both event checkpoints have a sample of the minute before their deadline, not in the future,
-- with replica counts in range, for readiness all of them ready and the measured round trip below
-- 2 ms.
pub evaluate-IsClear :
    (digest : Input → Option Text) (plan : Input) (pd : Text) (now : ℕ) (o : Observations)
    → (evaluate digest plan pd now o).has_blocking_checks ≡ false
    → (digest plan ≡ some pd)
      × (digest_matches pd ≡ true)
      × (now ≢ 0)
      × IsClear pd now o (text_eq plan.profile high_scale)
unfolding evaluate
evaluate-IsClear digest plan pd now o h =
    elim (Bool-cases (not (digest_matches pd) || not (is_digest digest plan pd) || now == 0)) [
      | inl bad ↦ absurd (ground arith)
      | inr good ↦ (
        is_digest_sound digest plan pd (ground arith),
        ground arith,
        ground arith,
        checks-IsClear (text_eq plan.profile high_scale) pd now o (ground arith),
      )
    ]

-- No report of `Evaluate` allows activation, and a report's checks block exactly if it says so.
pub evaluate_never_allows :
    (digest : Input → Option Text) (plan : Input) (pd : Text) (now : ℕ) (o : Observations)
    → ((evaluate digest plan pd now o).activation_allowed ≡ false)
      × ((evaluate digest plan pd now o).has_blocking_checks
          ≡ any (λ c. c.blocks_activation) (evaluate digest plan pd now o).checks)
unfolding evaluate any check
evaluate_never_allows digest plan pd now o =
    if_cases
      (λ (r : Report).
        (r.activation_allowed ≡ false)
        × (r.has_blocking_checks ≡ any (λ c. c.blocks_activation) r.checks))
      _ (λ e. (refl, refl)) (λ e. (refl, refl))
