-- ===== src/Install/Limits.antt =====
-- internal/installplan/plan.go: which inputs are accepted, and what a proposal promises.
use waiting_room.Base.{
  ℕ, ◌*◌, ◌+◌, ◌≤◌, ◌≡◌, ◌⊎◌, ◌↔◌, refl, ap, sym, text_eq_refl, true, false, List, [], ◌∷◌, Option,
  none, some, if◌then◌else◌, Text, codes, text_eq, text_eq_iff, arith, Bool-cases, inl, inr,
}
use waiting_room.Base.Int.{ℤ, pos, ◌≤ℤ◌}
use waiting_room.Install.Plan.{
  Input, Plan, Resource, standard, high_scale, region_matches, profile_caps, refuses, proposal,
  build, standard_resources, outside,
}

-- The caps of a profile, said as a table.
abbrev pub Capped : Text → ℕ → ℕ → Type 0
Capped profile cap rate =
    ((profile ≡ standard) × (cap ≡ 10000) × (rate ≡ 6000))
    ⊎ ((profile ≡ high_scale) × (cap ≡ 100000) × (rate ≡ 60000))

abbrev pub Within : ℕ → ℕ → ℤ → Type 0
Within lo hi x = (pos lo ≤ℤ x) × (x ≤ℤ pos hi)

-- What an input must satisfy under caps.
pub record IsAccepted (i : Input) (cap rate : ℕ) : Type 0 where
  pub schema : Within 1 1 i.schema_version
  pub region : region_matches i.region_id ≡ true
  pub policy : i.queue_policy ≡ codes "fifo"
  pub peak : Within 1 cap i.expected_peak_visitors
  pub leases : Within 1 cap i.limits.max_active_admission_leases
  pub admissions : Within 1 rate i.limits.admissions_per_minute
  pub ttl : Within 60 3600 i.limits.admission_ttl_seconds
  pub factor :
      (i.totp.mode ≡ codes "configurable")
      ⊎ ((i.totp.mode ≡ codes "forced_on") × (i.totp.enabled ≡ true))

outside-false : (lo hi : ℕ) (x : ℤ) → (outside lo hi x ≡ false) ↔ Within lo hi x
outside-false lo hi x = (λ h. ground arith, λ h. ground arith)

refuses_false : (i : Input) (cap rate : ℕ) → refuses i cap rate ≡ false → IsAccepted i cap rate
unfolding refuses
refuses_false i cap rate h = ground (
  arith,
  text_eq_iff i.queue_policy (codes "fifo"),
  text_eq_iff i.totp.mode (codes "configurable"),
  text_eq_iff i.totp.mode (codes "forced_on"),
)

refuses_of_IsAccepted :
    (i : Input) (cap rate : ℕ) → IsAccepted i cap rate → refuses i cap rate ≡ false
unfolding refuses
refuses_of_IsAccepted i cap rate a = ground (
  arith,
  a.factor,
  text_eq_iff i.queue_policy (codes "fifo"),
  text_eq_iff i.totp.mode (codes "configurable"),
  text_eq_iff i.totp.mode (codes "forced_on"),
)

profile_caps-some :
    (profile : Text) (cap rate : ℕ)
    → profile_caps profile ≡ some (cap, rate)
    → Capped profile cap rate
profile_caps-some profile cap rate h =
    ground (arith, text_eq_iff profile standard, text_eq_iff profile high_scale)

profile_caps_of_Capped :
    (profile : Text) (cap rate : ℕ)
    → Capped profile cap rate
    → profile_caps profile ≡ some (cap, rate)
unfolding text_eq
profile_caps_of_Capped profile limit rate (inl (p, c, r)) = rw (p, c, r) refl
profile_caps_of_Capped profile limit rate (inr (p, c, r)) = rw (p, c, r) refl

-- `Build` proposes a plan exactly for the inputs of a known profile that lie within its caps and
-- the other bounds.
pub build_iff :
    (i : Input) (p : Plan)
    → (build i ≡ some p) ↔ (
        (limit : ℕ) × (rate : ℕ) × Capped i.profile limit rate
        × IsAccepted i limit rate
        × (p ≡ proposal i limit rate))
unfolding build
build_iff i p = (only, all_of)
  where
    under :
        (caps : Option (ℕ × ℕ))
        → profile_caps i.profile ≡ caps
        → ◌≡◌ {A = Option Plan}
            (elim caps [
              | none ↦ none
              | some (limit, rate) ↦
                  if refuses i limit rate then none else some (proposal i limit rate)
            ])
            (some p)
        → (limit : ℕ) × (rate : ℕ) × Capped i.profile limit rate
          × IsAccepted i limit rate
          × (p ≡ proposal i limit rate)
    under none e h = cc
    under (some (limit, rate)) e h = elim (Bool-cases (refuses i limit rate)) [
      | inl bad ↦ absurd (cc (rw bad at h))
      | inr good ↦ (
        limit,
        rate,
        profile_caps-some i.profile limit rate e,
        refuses_false i limit rate good,
        cc (rw good at h),
      )
    ]

    only :
        build i ≡ some p
        → (limit : ℕ) × (rate : ℕ) × Capped i.profile limit rate
          × IsAccepted i limit rate
          × (p ≡ proposal i limit rate)
    only h = under (profile_caps i.profile) refl h

    all_of :
        (limit : ℕ) × (rate : ℕ) × Capped i.profile limit rate
          × IsAccepted i limit rate
          × (p ≡ proposal i limit rate)
        → build i ≡ some p
    all_of (limit, rate, c, a, e) =
        rw (profile_caps_of_Capped i.profile limit rate c, build)
          (rw (refuses_of_IsAccepted i limit rate a) (ap some (sym e)))

-- A proposal repeats its input, which lies within the caps that it states, budgets two remembered
-- keys for each visitor, and permits neither execution nor activation.
pub build_bounds :
    (i : Input) (p : Plan)
    → build i ≡ some p
    → (p.input ≡ i)
      × (i.expected_peak_visitors ≤ℤ pos p.visitor_state_cap)
      × (i.limits.max_active_admission_leases ≤ℤ pos p.visitor_state_cap)
      × (i.limits.admissions_per_minute ≤ℤ pos p.rate_cap_per_minute)
      × (p.idempotency_budget ≡ p.visitor_state_cap + p.visitor_state_cap)
      × (p.executable ≡ false)
      × (p.activation_allowed ≡ false)
unfolding proposal
build_bounds i p h =
    let (limit, rate, c, a, e) = (build_iff i p).0 h in
    rw e (refl, a.peak.1, a.leases.1, a.admissions.1, omega arith, refl, refl)

abbrev pub sum_by : (Resource → ℕ) → List Resource → ℕ
sum_by f [] = 0
sum_by f (r ∷ rs) = f r + sum_by f rs

-- Every standard proposal fits the single host that the operator provides: 4 vCPU, 8 GiB, 50 GiB.
pub standard_fits_host :
    (i : Input) (p : Plan)
    → build i ≡ some p
    → i.profile ≡ standard
    → (sum_by (λ r. r.replicas * r.cpu_millicores) p.resources ≤ 4000)
      × (sum_by (λ r. r.replicas * r.memory_mib) p.resources ≤ 8192)
      × (sum_by (λ r. r.replicas * r.storage_gib) p.resources ≤ 50)
unfolding proposal standard_resources
standard_fits_host i p h e =
    let (limit, rate, c, a, it) = (build_iff i p).0 h in
    rw (it, e) (rw (text_eq_refl standard) (omega arith, omega arith, omega arith))
