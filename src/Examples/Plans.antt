-- ===== src/Examples/Plans.antt =====
-- internal/installplan: a standard plan, and evidence for a high-scale one.
use waiting_room.Base.{
  ℕ, ◌+◌, ◌≡◌, ◌≢◌, refl, true, false, ◌++◌, Option, some, Text, codes, text_eq, all, any,
}
use waiting_room.Base.Int.{pos, negsuc, ◌≤ℤ◌}
use waiting_room.Install.Plan.{
  Input, Plan, standard, high_scale, build, refuses, proposal, region_matches,
}
use waiting_room.Install.Limits.{build_bounds}
use waiting_room.Install.Preflight.{
  Status, Stamp, StoreEvidence, EventSnapshot, Observations, digest_matches, check, fresh,
  clock_verdict, clock, probe, store_status, store, sample_verdict, event_checkpoint, origin_of,
  ha_record, event_checks, high_checks, checks_of, evaluate,
}
use waiting_room.Install.Evidence.{IsClear, evaluate-IsClear}

abbrev input : Text → Input
input profile = record {
  schema_version = pos 1;
  profile = profile;
  region_id = codes "lab";
  queue_policy = codes "fifo";
  expected_peak_visitors = pos 9000;
  limits = record {
    max_active_admission_leases = pos 1000;
    admissions_per_minute = pos 600;
    admission_ttl_seconds = pos 900;
  };
  totp = record { mode = codes "configurable"; enabled = true };
}

abbrev plan : Plan
plan = proposal (input standard) 10000 6000

built : build (input standard) ≡ some plan
unfolding build refuses region_matches all text_eq
built = refl

build_bounds_example :
    (plan.input ≡ input standard)
    × (pos 9000 ≤ℤ pos plan.visitor_state_cap)
    × (pos 1000 ≤ℤ pos plan.visitor_state_cap)
    × (pos 600 ≤ℤ pos plan.rate_cap_per_minute)
    × (plan.idempotency_budget ≡ plan.visitor_state_cap + plan.visitor_state_cap)
    × (plan.executable ≡ false)
    × (plan.activation_allowed ≡ false)
build_bounds_example = build_bounds (input standard) plan built

abbrev hex : Text
hex = h ++ (h ++ (h ++ h))
  where
    h : Text
    h = codes "0123456789abcdef"

abbrev hour : ℕ
hour = 3600000000000

abbrev stamp : ℕ → Stamp
stamp at = record { plan_digest = hex; artifact_digest = hex; observed_at = at }

abbrev sampled : ℕ → EventSnapshot
sampled at = record {
  stamp = stamp at;
  event_digest = hex;
  gateway = record { desired = pos 8; ready = pos 8 };
  coordinator = record { desired = pos 4; ready = pos 4 };
  control = record { desired = pos 2; ready = pos 2 };
  valkey_p95_rtt = pos 1500000;
  rtt_samples = pos 20;
}

abbrev passing : StoreEvidence
passing = record {
  stamp = stamp hour;
  tls = Status.pass;
  authentication = Status.pass;
  role = Status.pass;
  read_write = Status.pass;
  connection_switch = Status.pass;
}

-- Evidence a minute before the event, with samples taken at both deadlines.
abbrev observations : Observations
observations = record {
  clock = some (record {
    stamp = stamp hour;
    method = codes "chrony";
    source_digest = hex;
    offset = negsuc 999999999;
    synchronized = true;
  });
  postgresql = some passing;
  valkey = some passing;
  origin = some (record { stamp = stamp hour; active_probe = Status.pass });
  ha_record_acknowledged = true;
  event = some (record {
    digest = hex;
    admit_at = hour;
    pre_scale = some (sampled 3000000000000);
    readiness = some (sampled 3300000000000);
  });
}

abbrev digest_of : Input → Option Text
digest_of i = some hex

clear : (evaluate digest_of (input high_scale) hex hour observations).has_blocking_checks ≡ false
unfolding digest_matches check fresh clock_verdict clock probe store_status store sample_verdict
    event_checkpoint origin_of ha_record event_checks high_checks checks_of evaluate text_eq all any
clear = refl

evaluate-IsClear_example :
    (digest_of (input high_scale) ≡ some hex)
    × (digest_matches hex ≡ true)
    × (hour ≢ 0)
    × IsClear hex hour observations (text_eq high_scale high_scale)
evaluate-IsClear_example = evaluate-IsClear digest_of (input high_scale) hex hour observations clear
