-- ===== src/Install/Preflight.antt =====
-- internal/installplan/preflight/preflight.go: the policy over collected evidence. An instant is
-- the number of nanoseconds since Go's zero time, which is 0, and a duration is signed; an event
-- that admits less than its lead after the zero time has its deadline at the zero time.
use waiting_room.Base.{
  ℕ, ◌-◌, Bool, true, false, not, ◌&&◌, ◌||◌, List, [], ◌∷◌, ◌++◌, Option, none, some, ◌==◌, leb,
  ltb, if◌then◌else◌, Text, codes, text_eq, length, all, any, within,
}
use waiting_room.Base.Int.{ℤ, pos, negsuc, ltb_ℤ, leb_ℤ}
mod Data
pub use Data.*
use waiting_room.Install.Plan.{Input, high_scale}

abbrev is_hex : ℕ → Bool
is_hex c = within b'a' b'f' c || within b'0' b'9' c

-- `^[a-f0-9]{64}$`
unfoldable pub digest_matches : Text → Bool
digest_matches s = length s == 64 && all is_hex s

abbrev pub is_blocking : Status → Bool
is_blocking Status.fail = true
is_blocking Status.unverified = true
is_blocking Status.not_due = true
is_blocking _ = false

abbrev pub is_pass : Status → Bool
is_pass Status.pass = true
is_pass _ = false

abbrev pub is_fail : Status → Bool
is_fail Status.fail = true
is_fail _ = false

-- An instant's UTC form is the instant itself here.
unfoldable pub check : CheckId → Status → Code → Option Stamp → Check
check id status code s = record {
  id = id;
  status = status;
  code = code;
  blocks_activation = is_blocking status;
  evidence = s;
  clock_method = [];
  clock_source_digest = [];
  clock_offset = none;
}

unfoldable pub fresh : Stamp → Text → ℕ → Bool
fresh s plan_digest at =
    text_eq s.plan_digest plan_digest
    && digest_matches s.artifact_digest
    && not (s.observed_at == 0)
    && leb s.observed_at at
    && leb (at - s.observed_at) max_evidence_age

abbrev pub beyond : ℕ → ℤ → Bool
beyond bound offset = ltb_ℤ (pos bound) offset || ltb_ℤ offset (negsuc (bound - 1))

unfoldable pub clock_verdict : ClockEvidence → Status × Code
clock_verdict e =
    if not e.synchronized
    then (Status.fail, Code.clock_not_synchronized)
    else if beyond 5000000000 e.offset
    then (Status.fail, Code.clock_offset_exceeds_5_seconds)
    else if beyond 2000000000 e.offset
    then (Status.warn, Code.clock_offset_exceeds_2_seconds)
    else (Status.pass, Code.clock_within_recommendation)

abbrev pub known_method : Text → Bool
known_method m =
    text_eq m (codes "chrony")
    || text_eq m (codes "ntp")
    || text_eq m (codes "platform-time-service")

unfoldable pub clock : Text → ℕ → Option ClockEvidence → Check
clock plan_digest now none =
    check CheckId.clock_check Status.unverified Code.clock_evidence_missing_or_invalid none
clock plan_digest now (some e) =
    if not (fresh e.stamp plan_digest now)
      || not (digest_matches e.source_digest)
      || not (known_method e.method)
    then check CheckId.clock_check Status.unverified Code.clock_evidence_missing_or_invalid none
    else (let (status, code) = clock_verdict e in
        let c = check CheckId.clock_check status code (some e.stamp) in
        record c {
          clock_method = e.method;
          clock_source_digest = e.source_digest;
          clock_offset = some e.offset;
        })

unfoldable pub probe : CheckId → Status → Stamp → Check
probe id Status.pass s = check id Status.pass Code.probe_passed_not_ha_proof (some s)
probe id Status.fail s = check id Status.fail Code.probe_failed (some s)
probe id _ s = check id Status.unverified Code.probe_not_verified (some s)

-- The loop of `store` over the statuses, from the status found so far.
unfoldable pub store_status : Status → List Status → Status
store_status found [] = found
store_status found (s ∷ ss) =
    let rest = store_status (if is_pass s then found else Status.unverified) ss in
    if is_fail s then Status.fail else rest

unfoldable pub store : CheckId → Text → ℕ → Option StoreEvidence → Bool → Check
store id plan_digest now none high =
    check id Status.unverified Code.store_evidence_missing_or_invalid none
store id plan_digest now (some e) high =
    if not (fresh e.stamp plan_digest now)
    then check id Status.unverified Code.store_evidence_missing_or_invalid none
    else probe id
        (store_status Status.pass (
          (e.authentication ∷ e.role ∷ e.read_write ∷ [])
          ++ (if high then e.tls ∷ e.connection_switch ∷ [] else [])))
        e.stamp

abbrev pub bad_replicas : Replicas → Bool
bad_replicas r = ltb_ℤ r.desired (pos 0) || ltb_ℤ r.ready (pos 0) || ltb_ℤ r.desired r.ready

abbrev pub not_scaled : EventSnapshot → Bool
not_scaled s =
    ltb_ℤ s.gateway.desired (pos 8)
    || ltb_ℤ (pos 12) s.gateway.desired
    || ltb_ℤ s.coordinator.desired (pos 4)
    || ltb_ℤ (pos 8) s.coordinator.desired
    || ltb_ℤ s.control.desired (pos 2)
    || ltb_ℤ (pos 2) s.control.desired
    || ltb_ℤ s.gateway.ready (pos 8)
    || ltb_ℤ s.coordinator.ready (pos 4)

abbrev pub not_all_ready : Replicas → Bool
not_all_ready r = ltb_ℤ r.ready r.desired || ltb_ℤ r.desired r.ready

-- The verdict of `eventCheckpoint` on a sample that is on time.
unfoldable pub sample_verdict : Bool → EventSnapshot → Status × Code
sample_verdict ready s =
    if bad_replicas s.gateway || bad_replicas s.coordinator || bad_replicas s.control
    then (Status.fail, Code.invalid_replica_counts)
    else if not_scaled s
    then (Status.fail, Code.prescale_target_not_available)
    else if ready
        && (not_all_ready s.gateway || not_all_ready s.coordinator || not_all_ready s.control)
    then (Status.fail, Code.rollout_not_all_ready)
    else if ready && (ltb_ℤ s.rtt_samples (pos 1) || leb_ℤ s.valkey_p95_rtt (pos 0))
    then (Status.unverified, Code.rtt_measurement_required)
    else if ready && leb_ℤ (pos 2000000) s.valkey_p95_rtt
    then (Status.fail, Code.valkey_p95_rtt_not_below_2ms)
    else (Status.pass, Code.checkpoint_sample_passed_not_live_approval)

abbrev pub checkpoint_id : Bool → CheckId
checkpoint_id ready = if ready then CheckId.event_readiness_check else CheckId.event_prescale_check

-- Five or ten minutes.
abbrev pub lead : Bool → ℕ
lead ready = if ready then 300000000000 else 600000000000

abbrev pub sample : Bool → Event → Option EventSnapshot
sample ready event = if ready then event.readiness else event.pre_scale

unfoldable pub event_checkpoint : Text → ℕ → Event → Bool → Check
event_checkpoint plan_digest now event ready =
    let id = checkpoint_id ready in
    let deadline = event.admit_at - lead ready in
    if event.admit_at == 0 || not (digest_matches event.digest)
    then check id Status.fail Code.invalid_event_context none
    else if ltb now deadline
    then check id Status.not_due Code.checkpoint_not_due_no_approval none
    else elim (sample ready event) [
      | none ↦ check id Status.unverified Code.checkpoint_evidence_missing none
      | some s ↦
          if not (text_eq s.event_digest event.digest) || not (fresh s.stamp plan_digest deadline)
          then check id Status.fail Code.checkpoint_evidence_late_stale_or_mismatched none
          else (let (status, code) = sample_verdict ready s in check id status code (some s.stamp))
    ]

unfoldable pub origin_of : Text → ℕ → Option OriginEvidence → Check
origin_of plan_digest now none =
    check CheckId.origin_check Status.unverified Code.no_current_active_probe none
origin_of plan_digest now (some e) =
    if not (fresh e.stamp plan_digest now)
    then check CheckId.origin_check Status.unverified Code.no_current_active_probe none
    else probe CheckId.origin_check e.active_probe e.stamp

unfoldable pub ha_record : Observations → Check
ha_record o =
    if o.ha_record_acknowledged
    then check CheckId.ha_record_check Status.warn Code.operator_ack_only_not_ha_proof none
    else check CheckId.ha_record_check Status.unverified Code.ha_operator_record_missing none

unfoldable pub event_checks : Text → ℕ → Option Event → List Check
event_checks plan_digest now none =
    check CheckId.event_prescale_check Status.unverified Code.event_context_required none
    ∷ check CheckId.event_readiness_check Status.unverified Code.event_context_required none
    ∷ []
event_checks plan_digest now (some e) =
    event_checkpoint plan_digest now e false ∷ event_checkpoint plan_digest now e true ∷ []

-- The checks of `Evaluate` for the high-scale profile alone.
unfoldable pub high_checks : Text → ℕ → Observations → List Check
high_checks plan_digest now o = ha_record o ∷ event_checks plan_digest now o.event

unfoldable pub standard_checks : List Check
standard_checks =
    check CheckId.ha_record_check Status.not_applicable Code.standard_is_not_ha none
    ∷ check CheckId.event_prescale_check Status.not_applicable Code.high_scale_check_only none
    ∷ check CheckId.event_readiness_check Status.not_applicable Code.high_scale_check_only none
    ∷ []

unfoldable pub checks_of : Bool → Text → ℕ → Observations → List Check
checks_of high plan_digest now o =
    clock plan_digest now o.clock
    ∷ store CheckId.postgresql_check plan_digest now o.postgresql high
    ∷ store CheckId.valkey_check plan_digest now o.valkey high
    ∷ origin_of plan_digest now o.origin
    ∷ (if high then high_checks plan_digest now o else standard_checks)

-- `digest` is `installplan.Digest`, which hashes the plan of an input that `Build` accepts.
module _ (digest : Input → Option Text) where
  abbrev pub is_digest : Input → Text → Bool
  is_digest plan planned = elim (digest plan) [ none ↦ false | some d ↦ text_eq d planned ]

  unfoldable pub evaluate : Input → Text → ℕ → Observations → Report
  evaluate plan plan_digest now o =
      if not (digest_matches plan_digest) || not (is_digest plan plan_digest) || now == 0
      then record {
        plan_digest = [];
        evaluated_at = now;
        checks = check CheckId.input_check Status.fail Code.invalid_preflight_context none ∷ [];
        has_blocking_checks = true;
        activation_allowed = false;
      }
      else (let checks = checks_of (text_eq plan.profile high_scale) plan_digest now o in
          record {
            plan_digest = plan_digest;
            evaluated_at = now;
            checks = checks;
            has_blocking_checks = any (λ c. c.blocks_activation) checks;
            activation_allowed = false;
          })
