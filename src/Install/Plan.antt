-- ===== src/Install/Plan.antt =====
-- internal/installplan/plan.go: `Build`, from planning inputs to a proposal. Of a plan's prose
-- (meanings, operator duties, warnings, cost notes) only the list of required checks is modelled.
use waiting_room.Base.{
  ℕ, ◌*◌, Bool, false, not, ◌&&◌, ◌||◌, List, [], ◌∷◌, ◌++◌, Option, none, some, ◌==◌, leb,
  if◌then◌else◌, Text, codes, text_eq, length, all, within,
}
use waiting_room.Base.Int.{ℤ, pos, ltb_ℤ}

pub record Limits : Type 0 where
  pub max_active_admission_leases : ℤ
  pub admissions_per_minute : ℤ
  pub admission_ttl_seconds : ℤ

pub record Totp : Type 0 where
  pub mode : Text
  pub enabled : Bool

pub record Input : Type 0 where
  pub schema_version : ℤ
  pub profile : Text
  pub region_id : Text
  pub queue_policy : Text
  pub expected_peak_visitors : ℤ
  pub limits : Limits
  pub totp : Totp

pub record Resource : Type 0 where
  pub name : Text
  pub ownership : Text
  pub replicas : ℕ
  pub cpu_millicores : ℕ
  pub memory_mib : ℕ
  pub storage_gib : ℕ

pub record Plan : Type 0 where
  pub schema_version : ℕ
  pub kind : Text
  pub executable : Bool
  pub activation_allowed : Bool
  pub qualification : Text
  pub input : Input
  pub deployment : Text
  pub visitor_state_cap : ℕ
  pub idempotency_budget : ℕ
  pub rate_cap_per_minute : ℕ
  pub resources : List Resource
  pub required_checks : List Text

abbrev pub standard : Text
standard = codes "standard-10k"

abbrev pub high_scale : Text
high_scale = codes "high-scale-100k"

abbrev is_region_char : ℕ → Bool
is_region_char c = within b'a' b'z' c || within b'0' b'9' c || c == b'-'

-- `^[a-z][a-z0-9-]{0,62}$`
unfoldable pub region_matches : Text → Bool
region_matches [] = false
region_matches (c ∷ cs) = within b'a' b'z' c && leb (length cs) 62 && all is_region_char cs

abbrev pub resource : Text → Text → ℕ → ℕ → ℕ → ℕ → Resource
resource name ownership replicas cpu memory storage = record {
  name = name;
  ownership = ownership;
  replicas = replicas;
  cpu_millicores = cpu;
  memory_mib = memory;
  storage_gib = storage;
}

unfoldable pub standard_resources : List Resource
standard_resources =
    resource (codes "gateway") (codes "application") 1 1000 1024 0
    ∷ resource (codes "control-ui") (codes "application") 1 250 768 0
    ∷ resource (codes "coordinator") (codes "application") 1 500 512 0
    ∷ resource (codes "valkey") (codes "bundled-store") 1 750 2048 10
    ∷ resource (codes "postgresql") (codes "bundled-store") 1 500 1536 20
    ∷ []

unfoldable pub high_scale_resources : List Resource
high_scale_resources =
    resource (codes "gateway") (codes "application") 4 1000 768 0
    ∷ resource (codes "control-ui") (codes "application") 2 500 512 0
    ∷ resource (codes "coordinator") (codes "application") 4 1000 1024 0
    ∷ resource (codes "valkey") (codes "operator-external") 3 4000 8192 50
    ∷ resource (codes "postgresql") (codes "operator-external") 2 2000 8192 100
    ∷ []

unfoldable pub common_checks : List Text
common_checks =
    codes "environment-capabilities"
    ∷ codes "dns-tls-ports-storage"
    ∷ codes "clock-source-and-offset"
    ∷ codes "secret-mounts"
    ∷ codes "signed-config"
    ∷ codes "origin-protection-active-probe"
    ∷ codes "quick-20"
    ∷ codes "profile-qualification"
    ∷ []

unfoldable pub high_scale_checks : List Text
high_scale_checks =
    codes "external-store-tls-auth-role-read-write-switch"
    ∷ codes "operator-HA-backup-RPO-RTO-record"
    ∷ codes "three-domain-topology-and-sentinel-quorum-2"
    ∷ codes "hpa-pdb-and-network-policy"
    ∷ codes "T-minus-10m-gateway-8-coordinator-4"
    ∷ codes "T-minus-5m-all-ready-and-valkey-p95-RTT-less-than-2ms"
    ∷ []

-- The visitor cap and the rate cap of a profile.
abbrev pub profile_caps : Text → Option (ℕ × ℕ)
profile_caps profile =
    if text_eq profile high_scale
    then some (100000, 60000)
    else if not (text_eq profile standard)
    then none
    else some (10000, 6000)

-- `x < lo || x > hi`
abbrev pub outside : ℕ → ℕ → ℤ → Bool
outside lo hi x = ltb_ℤ x (pos lo) || ltb_ℤ (pos hi) x

-- The test of `Build` under the caps of the profile.
unfoldable pub refuses : Input → ℕ → ℕ → Bool
refuses i cap rate =
    outside 1 1 i.schema_version
    || not (region_matches i.region_id)
    || not (text_eq i.queue_policy (codes "fifo"))
    || outside 1 cap i.expected_peak_visitors
    || outside 1 cap i.limits.max_active_admission_leases
    || outside 1 rate i.limits.admissions_per_minute
    || outside 60 3600 i.limits.admission_ttl_seconds
    || (not (text_eq i.totp.mode (codes "configurable"))
        && not (text_eq i.totp.mode (codes "forced_on")))
    || (text_eq i.totp.mode (codes "forced_on") && not i.totp.enabled)

unfoldable pub proposal : Input → ℕ → ℕ → Plan
proposal i cap rate = record {
  schema_version = 1;
  kind = codes "offline-install-proposal";
  executable = false;
  activation_allowed = false;
  qualification = codes "NOT_RUN";
  input = i;
  deployment =
      if text_eq i.profile standard
      then codes "compose-single-host"
      else codes "helm-application-only";
  visitor_state_cap = cap;
  idempotency_budget = cap * 2;
  rate_cap_per_minute = rate;
  resources = if text_eq i.profile standard then standard_resources else high_scale_resources;
  required_checks =
      if text_eq i.profile standard then common_checks else common_checks ++ high_scale_checks;
}

-- `none` is `ErrInput`.
unfoldable pub build : Input → Option Plan
build i = elim (profile_caps i.profile) [
  | none ↦ none
  | some (cap, rate) ↦ if refuses i cap rate then none else some (proposal i cap rate)
]
