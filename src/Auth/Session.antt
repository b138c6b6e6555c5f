-- ===== src/Auth/Session.antt =====
-- internal/adminauth/session.go: the policy, accounts, sessions and their checks. A `time.Time` is
-- the number of nanoseconds since Go's zero time, which is 0.
use waiting_room.Base.{
  ℕ, ◌+◌, Bool, true, false, not, ◌&&◌, ◌||◌, [], Option, none, some, ◌==◌, ltb, if◌then◌else◌,
  Text, text_eq,
}
use waiting_room.Auth.Policy.{Role, Action, role_bit, requirement}

pub data Error : Type 0 where
  unauthenticated forbidden reauthentication_required policy_locked invalid_policy : Error

-- `neither` stands for every other string.
pub data PolicyMode : Type 0 where
  configurable forced_on neither : PolicyMode

-- 30 minutes.
abbrev pub session_idle_ttl : ℕ
session_idle_ttl = 1800000000000

-- 8 hours.
abbrev pub session_absolute_ttl : ℕ
session_absolute_ttl = 28800000000000

pub record AuthPolicy : Type 0 where
  pub mode : PolicyMode
  pub totp_enabled : Bool
  pub version : ℕ

pub record Account : Type 0 where
  pub id : Text
  pub role : Role
  pub enabled : Bool
  pub session_version : ℕ
  pub totp_enrolled : Bool

pub record Session : Type 0 where
  pub user_id : Text
  pub auth_policy_version : ℕ
  pub user_session_version : ℕ
  pub mfa_verified : Bool
  pub created_at : ℕ
  pub last_seen_at : ℕ

unfoldable pub default_policy : AuthPolicy
default_policy = record { mode = PolicyMode.configurable; totp_enabled = true; version = 1 }

abbrev pub is_forced : PolicyMode → Bool
is_forced PolicyMode.forced_on = true
is_forced _ = false

abbrev pub is_mode : PolicyMode → Bool
is_mode PolicyMode.neither = false
is_mode _ = true

-- `none` is the nil error.
unfoldable pub validate : AuthPolicy → Option Error
validate p =
    if p.version == 0 || not (is_mode p.mode)
    then some Error.invalid_policy
    else if is_forced p.mode && not p.totp_enabled
    then some Error.policy_locked
    else none

abbrev pub is_none {ℓ} : {A : Type ℓ} → Option A → Bool
is_none none = true
is_none (some a) = false

unfoldable pub check_session : Account → Session → AuthPolicy → ℕ → Option Error
unfolding validate role_bit
check_session account session policy now =
    if not (is_none (validate policy))
      || text_eq account.id []
      || not account.enabled
      || role_bit account.role == 0
      || account.session_version == 0
      || not (text_eq session.user_id account.id)
      || not (session.auth_policy_version == policy.version)
      || not (session.user_session_version == account.session_version)
      || session.created_at == 0
      || ltb session.last_seen_at session.created_at
      || ltb now session.last_seen_at
      || not (ltb now (session.created_at + session_absolute_ttl))
      || not (ltb now (session.last_seen_at + session_idle_ttl))
    then some Error.unauthenticated
    else if policy.totp_enabled && (not account.totp_enrolled || not session.mfa_verified)
    then some Error.unauthenticated
    else none

unfoldable pub check_ordinary_action : Account → Session → AuthPolicy → Action → ℕ → Option Error
check_ordinary_action account session policy action now =
    elim (check_session account session policy now) [
      | some e ↦ some e
      | none ↦ elim (requirement account.role action) [
        | none ↦ some Error.forbidden
        | some c ↦
            if c.requires_reauthentication then some Error.reauthentication_required else none
      ]
    ]
