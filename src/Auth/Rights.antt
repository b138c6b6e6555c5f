-- ===== src/Auth/Rights.antt =====
-- internal/adminauth/policy.go: what the table of rules grants.
use waiting_room.Base.{
  ◌≡◌, refl, Bool, true, false, not, ◌&&◌, ◌||◌, none, some, if◌then◌else◌, any,
}
use waiting_room.Auth.Policy.{
  Role, admin, operator, viewer, unknown, Action, requirement, capabilities, offers, action_eq,
  read_dashboard, read_config, read_runtime, operate_runtime, instant_off, new_epoch, read_events,
  write_events, read_lab, run_lab, write_users, write_totp_policy, reset_user_totp, rotate_keys,
  read_audit, read_install, other,
}

-- The actions that a role has, said without the table: a viewer reads what is public to the
-- Backoffice, an operator also runs the queue, its events and the lab, an administrator does all.
abbrev pub is_public : Action → Bool
is_public read_dashboard = true
is_public read_config = true
is_public read_runtime = true
is_public read_events = true
is_public read_lab = true
is_public read_audit = true
is_public read_install = true
is_public _ = false

abbrev pub is_operation : Action → Bool
is_operation operate_runtime = true
is_operation write_events = true
is_operation run_lab = true
is_operation _ = false

abbrev pub is_dangerous : Action → Bool
is_dangerous instant_off = true
is_dangerous new_epoch = true
is_dangerous write_users = true
is_dangerous write_totp_policy = true
is_dangerous reset_user_totp = true
is_dangerous rotate_keys = true
is_dangerous _ = false

abbrev pub grants : Role → Action → Bool
grants admin other = false
grants admin _ = true
grants operator a = is_public a || is_operation a
grants viewer a = is_public a
grants unknown a = false

-- `Requirement` grants a role exactly the actions described, and asks for a fresh proof of identity
-- exactly at the dangerous ones.
pub requirement-grants :
    (role : Role) (action : Action)
    → requirement role action ≡ (
        if grants role action
        then some (record { action = action; requires_reauthentication = is_dangerous action })
        else none)
unfolding requirement
requirement-grants admin other = refl
requirement-grants admin _ = refl
requirement-grants operator other = refl
requirement-grants operator _ = refl
requirement-grants viewer other = refl
requirement-grants viewer _ = refl
requirement-grants unknown other = refl
requirement-grants unknown _ = refl

-- `Capabilities` lists exactly the actions that `Requirement` grants, but for the rotation of keys.
pub capabilities-offers :
    (role : Role) (action : Action)
    → offers (capabilities role) action ≡ (grants role action && not (action_eq action rotate_keys))
unfolding capabilities any
capabilities-offers admin other = refl
capabilities-offers admin _ = refl
capabilities-offers operator other = refl
capabilities-offers operator _ = refl
capabilities-offers viewer other = refl
capabilities-offers viewer _ = refl
capabilities-offers unknown other = refl
capabilities-offers unknown _ = refl
