-- ===== src/Auth/Policy.antt =====
-- internal/adminauth/policy.go: roles, actions and the table of rules.
use Prim.Native.Nat.{bit_and, bit_or}
use waiting_room.Base.{
  ℕ, Bool, true, false, not, ◌&&◌, List, [], ◌∷◌, Option, none, some, ◌==◌, if◌then◌else◌, any,
}

-- `unknown` stands for every string that names no role.
pub data Role : Type 0 where
  admin operator viewer unknown : Role

-- `other` stands for every string that names no action.
pub data Action : Type 0 where
  read_dashboard read_config write_config read_runtime operate_runtime instant_off : Action
  new_epoch read_events write_events read_lab run_lab read_users write_users : Action
  read_security write_totp_policy reset_user_totp rotate_keys read_audit read_install : Action
  other : Action

-- Equality of actions, which the source compares as strings, goes by their numbers.
abbrev pub action_index : Action → ℕ
action_index read_dashboard = 1
action_index read_config = 2
action_index write_config = 3
action_index read_runtime = 4
action_index operate_runtime = 5
action_index instant_off = 6
action_index new_epoch = 7
action_index read_events = 8
action_index write_events = 9
action_index read_lab = 10
action_index run_lab = 11
action_index read_users = 12
action_index write_users = 13
action_index read_security = 14
action_index write_totp_policy = 15
action_index reset_user_totp = 16
action_index rotate_keys = 17
action_index read_audit = 18
action_index read_install = 19
action_index other = 0

abbrev pub action_eq : Action → Action → Bool
action_eq a b = action_index a == action_index b

pub record Capability : Type 0 where
  pub action : Action
  pub requires_reauthentication : Bool

pub record Rule : Type 0 where
  pub action : Action
  pub roles : ℕ  -- uint8
  pub reauthenticate : Bool

abbrev pub admin_bit : ℕ
admin_bit = 1

abbrev pub operator_bit : ℕ
operator_bit = 2

abbrev pub viewer_bit : ℕ
viewer_bit = 4

abbrev pub all_roles : ℕ
all_roles = bit_or (bit_or admin_bit operator_bit) viewer_bit

abbrev rule : Action → ℕ → Bool → Rule
rule a r b = record { action = a; roles = r; reauthenticate = b }

unfoldable pub rules : List Rule
rules =
    rule read_dashboard all_roles false
    ∷ rule read_config all_roles false
    ∷ rule write_config admin_bit false
    ∷ rule read_runtime all_roles false
    ∷ rule operate_runtime (bit_or admin_bit operator_bit) false
    ∷ rule instant_off admin_bit true
    ∷ rule new_epoch admin_bit true
    ∷ rule read_events all_roles false
    ∷ rule write_events (bit_or admin_bit operator_bit) false
    ∷ rule read_lab all_roles false
    ∷ rule run_lab (bit_or admin_bit operator_bit) false
    ∷ rule read_users admin_bit false
    ∷ rule write_users admin_bit true
    ∷ rule read_security admin_bit false
    ∷ rule write_totp_policy admin_bit true
    ∷ rule reset_user_totp admin_bit true
    ∷ rule rotate_keys admin_bit true
    ∷ rule read_audit all_roles false
    ∷ rule read_install all_roles false
    ∷ []

unfoldable pub role_bit : Role → ℕ
role_bit admin = admin_bit
role_bit operator = operator_bit
role_bit viewer = viewer_bit
role_bit unknown = 0

-- The loop of `Requirement` over the rules.
unfoldable pub requirement_in : List Rule → ℕ → Action → Option Capability
requirement_in [] bit action = none
requirement_in (r ∷ rs) bit action =
    if action_eq r.action action && not (bit_and r.roles bit == 0)
    then some (record { action = action; requires_reauthentication = r.reauthenticate })
    else requirement_in rs bit action

unfoldable pub requirement : Role → Action → Option Capability
unfolding requirement_in rules role_bit
requirement role action = requirement_in rules (role_bit role) action

-- The loop of `Capabilities` over the rules.
unfoldable pub capabilities_in : Role → List Rule → List Capability
capabilities_in role [] = []
capabilities_in role (r ∷ rs) =
    let rest = capabilities_in role rs in
    if action_eq r.action rotate_keys
    then rest
    else elim (requirement role r.action) [ none ↦ rest | some item ↦ item ∷ rest ]

unfoldable pub capabilities : Role → List Capability
unfolding capabilities_in rules requirement
capabilities role = capabilities_in role rules

-- Whether a list of capabilities has the given one.
abbrev pub offers : List Capability → Action → Bool
offers cs a = any (λ c. action_eq c.action a) cs
