-- ===== src/Auth/Validity.antt =====
-- internal/adminauth/session.go: when a session holds, and what it authorizes by itself.
use waiting_room.Base.{
  ℕ, sym, ◌∙◌, ◌+◌, ◌≤◌, ◌<◌, ◌≡◌, ◌≢◌, ◌⊎◌, ◌↔◌, Bool, true, false, [], Option, none, some,
  if◌then◌else◌, text_eq_iff, arith, inl, inr,
}
use waiting_room.Auth.Policy.{Action, Capability, unknown, role_bit, requirement}
use waiting_room.Auth.Rights.{grants, is_dangerous, requirement-grants}
use waiting_room.Auth.Session.{
  Error, PolicyMode, AuthPolicy, Account, Session, session_idle_ttl, session_absolute_ttl, validate,
  check_session, check_ordinary_action,
}

-- A policy that may be in force.
pub record IsValidPolicy (p : AuthPolicy) : Type 0 where
  pub versioned : p.version ≢ 0
  pub known : p.mode ≢ PolicyMode.neither
  pub kept : (p.mode ≢ PolicyMode.forced_on) ⊎ (p.totp_enabled ≡ true)

pub validate-none : (p : AuthPolicy) → (validate p ≡ none) ↔ IsValidPolicy p
unfolding validate
validate-none p = (λ h. ground arith, λ h. ground arith)

-- What a session needs at a time.
pub record Holds (a : Account) (s : Session) (p : AuthPolicy) (now : ℕ) : Type 0 where
  pub policy : IsValidPolicy p
  pub named : a.id ≢ []
  pub enabled : a.enabled ≡ true
  pub role : a.role ≢ unknown
  pub own : s.user_id ≡ a.id
  pub under_policy : s.auth_policy_version ≡ p.version
  pub unrevoked : s.user_session_version ≡ a.session_version
  pub revocable : a.session_version ≢ 0
  pub created : s.created_at ≢ 0
  pub ordered : s.created_at ≤ s.last_seen_at
  pub seen : s.last_seen_at ≤ now
  pub young : now < s.created_at + session_absolute_ttl
  pub active : now < s.last_seen_at + session_idle_ttl
  pub factor : (p.totp_enabled ≡ false) ⊎ ((a.totp_enrolled ≡ true) × (s.mfa_verified ≡ true))

-- `CheckSession` accepts exactly the sessions of an enabled account with a role that are of the
-- current policy and account versions, within both times to live, and with the second factor where
-- the policy asks for it; it refuses all others as unauthenticated.
pub check_session-Holds :
    (a : Account) (s : Session) (p : AuthPolicy) (now : ℕ)
    → ((check_session a s p now ≡ none) ↔ Holds a s p now)
      × ((check_session a s p now ≡ none) ⊎ (check_session a s p now ≡ some Error.unauthenticated))
unfolding check_session role_bit
check_session-Holds a s p now = (
  (
    λ h. ground (arith, text_eq_iff a.id [], text_eq_iff s.user_id a.id),
    λ h. ground (arith, text_eq_iff a.id [], text_eq_iff s.user_id a.id),
  ),
  ground arith,
)

-- The outcome of the two checks of `CheckOrdinaryAction`.
abbrev combined : Option Error → Option Capability → Option Error
combined checked needed = elim checked [
  | some e ↦ some e
  | none ↦ elim needed [
    | none ↦ some Error.forbidden
    | some c ↦ if c.requires_reauthentication then some Error.reauthentication_required else none
  ]
]

combined_lem :
    (checked : Option Error) (needed : Option Capability) (action : Action) (granted fresh : Bool)
    → needed ≡ (
        if granted
        then some (record { action = action; requires_reauthentication = fresh })
        else none)
    → (checked ≡ none) ⊎ (checked ≡ some Error.unauthenticated)
    → ((combined checked needed ≡ none) ↔ ((checked ≡ none) × (granted ≡ true) × (fresh ≡ false)))
      × ((combined checked needed ≡ some Error.reauthentication_required)
          ↔ ((checked ≡ none) × (granted ≡ true) × (fresh ≡ true)))
combined_lem checked needed action granted fresh n c =
    ((λ h. ground arith, λ h. ground arith), (λ h. ground arith, λ h. ground arith))

-- A session alone authorizes an action exactly if it holds, its account's role has the action and
-- the action is not dangerous. A dangerous one of the role is refused for want of a fresh proof.
pub check_ordinary_action-grants :
    (a : Account) (s : Session) (p : AuthPolicy) (action : Action) (now : ℕ)
    → ((check_ordinary_action a s p action now ≡ none)
        ↔ (Holds a s p now × (grants a.role action ≡ true) × (is_dangerous action ≡ false)))
      × ((check_ordinary_action a s p action now ≡ some Error.reauthentication_required)
          ↔ (Holds a s p now × (grants a.role action ≡ true) × (is_dangerous action ≡ true)))
unfolding check_ordinary_action
check_ordinary_action-grants a s p action now =
    let ((to, from), either) = check_session-Holds a s p now in
    let (plain, danger) =
      combined_lem (check_session a s p now) (requirement a.role action) action
        (grants a.role action) (is_dangerous action) (requirement-grants a.role action) either in
    (
      (λ h. let r = plain.0 h in (to r.0, r.1, r.2), λ h. plain.1 (from h.0, h.1, h.2)),
      (λ h. let r = danger.0 h in (to r.0, r.1, r.2), λ h. danger.1 (from h.0, h.1, h.2)),
    )

-- A new version of the policy or of the account ends every session of an older one, at once and
-- whatever else changes.
pub new_version_revokes :
    (a a' : Account) (s : Session) (p p' : AuthPolicy) (now later : ℕ)
    → check_session a s p now ≡ none
    → (p'.version ≢ p.version) ⊎ (a'.session_version ≢ a.session_version)
    → check_session a' s p' later ≡ some Error.unauthenticated
new_version_revokes a a' s p p' now later h other =
    let old = (check_session-Holds a s p now).0.0 h in
    let ((to, from), either) = check_session-Holds a' s p' later in
    elim either [
      | inl fine ↦ let now_holds = to fine in absurd (stale old now_holds other)
      | inr ended ↦ ended
    ]
  where
    stale :
        Holds a s p now
        → Holds a' s p' later
        → (p'.version ≢ p.version) ⊎ (a'.session_version ≢ a.session_version)
        → ⊥
    stale u v (inl d) = d (sym v.under_policy ∙ u.under_policy)
    stale u v (inr d) = d (sym v.unrevoked ∙ u.unrevoked)
