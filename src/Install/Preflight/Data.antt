-- ===== src/Install/Preflight/Data.antt =====
-- internal/installplan/preflight/preflight.go: the evidence, its checks and the report. An instant
-- is the number of nanoseconds since Go's zero time, which is 0, and a duration is signed.
use waiting_room.Base.{ℕ, Bool, List, Option, Text}
use waiting_room.Base.Int.{ℤ}

-- `absent` is the empty string and any other.
pub data Status : Type 0 where
  pass warn fail unverified not_due not_applicable absent : Status

pub data CheckId : Type 0 where
  input_check clock_check postgresql_check valkey_check origin_check : CheckId
  ha_record_check event_prescale_check event_readiness_check : CheckId

pub data Code : Type 0 where
  invalid_preflight_context : Code
  clock_evidence_missing_or_invalid clock_within_recommendation clock_not_synchronized : Code
  clock_offset_exceeds_5_seconds clock_offset_exceeds_2_seconds : Code
  probe_passed_not_ha_proof probe_failed probe_not_verified no_current_active_probe : Code
  store_evidence_missing_or_invalid : Code
  ha_operator_record_missing operator_ack_only_not_ha_proof standard_is_not_ha : Code
  event_context_required high_scale_check_only invalid_event_context : Code
  checkpoint_not_due_no_approval checkpoint_evidence_missing : Code
  checkpoint_evidence_late_stale_or_mismatched invalid_replica_counts : Code
  prescale_target_not_available rollout_not_all_ready rtt_measurement_required : Code
  valkey_p95_rtt_not_below_2ms checkpoint_sample_passed_not_live_approval : Code

-- One second, in nanoseconds.
abbrev pub second : ℕ
second = 1000000000

-- One minute.
abbrev pub max_evidence_age : ℕ
max_evidence_age = 60000000000

pub record Stamp : Type 0 where
  pub plan_digest : Text
  pub artifact_digest : Text
  pub observed_at : ℕ

pub record ClockEvidence : Type 0 where
  pub stamp : Stamp
  pub method : Text
  pub source_digest : Text
  pub offset : ℤ
  pub synchronized : Bool

pub record StoreEvidence : Type 0 where
  pub stamp : Stamp
  pub tls : Status
  pub authentication : Status
  pub role : Status
  pub read_write : Status
  pub connection_switch : Status

pub record OriginEvidence : Type 0 where
  pub stamp : Stamp
  pub active_probe : Status

pub record Replicas : Type 0 where
  pub desired : ℤ
  pub ready : ℤ

pub record EventSnapshot : Type 0 where
  pub stamp : Stamp
  pub event_digest : Text
  pub gateway : Replicas
  pub coordinator : Replicas
  pub control : Replicas
  pub valkey_p95_rtt : ℤ
  pub rtt_samples : ℤ

pub record Event : Type 0 where
  pub digest : Text
  pub admit_at : ℕ
  pub pre_scale : Option EventSnapshot
  pub readiness : Option EventSnapshot

pub record Observations : Type 0 where
  pub clock : Option ClockEvidence
  pub postgresql : Option StoreEvidence
  pub valkey : Option StoreEvidence
  pub origin : Option OriginEvidence
  pub ha_record_acknowledged : Bool
  pub event : Option Event

pub record Check : Type 0 where
  pub id : CheckId
  pub status : Status
  pub code : Code
  pub blocks_activation : Bool
  pub evidence : Option Stamp
  pub clock_method : Text
  pub clock_source_digest : Text
  pub clock_offset : Option ℤ

pub record Report : Type 0 where
  pub plan_digest : Text
  pub evaluated_at : ℕ
  pub checks : List Check
  pub has_blocking_checks : Bool
  pub activation_allowed : Bool
