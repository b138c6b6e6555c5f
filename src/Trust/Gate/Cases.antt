-- ===== src/Trust/Gate/Cases.antt =====
-- internal/configtrust/snapshot.go: the outcomes of `Apply` and `Current`.
use waiting_room.Base.{
  ℕ, if_cases, ◌≤◌, ◌<◌, ◌≡◌, refl, Bool, true, false, ◌&&◌, ◌||◌, not, leb, ltb, ◌==◌,
  if◌then◌else◌, Text, text_eq, text_eq_sound, Result, ok, err, arith, ◌⊎◌,
}
use waiting_room.Trust.Codec.{Codec, Snapshot}
use waiting_room.Trust.Gate.{
  Error, Reason, Gate, verify, verify_decoded, verify_signed, clock, accept, apply_verified, apply,
  current,
}

-- The gate once its clock moved on.
abbrev pub ticked : ℕ → Gate → Gate
ticked now g = record g { last_clock = now }

-- The gate once its clock went back.
abbrev pub quarantined : Gate → Gate
quarantined g = record g {
  clock_hold = true;
  recovery_after = g.last_clock;
  failure_reason = Reason.clock_rolled_back;
}

-- The gate once a publication could not be saved.
abbrev pub lost : Gate → Gate
lost g = record g { failed = true; failure_reason = Reason.storage_failed }

-- The gate once a publication was saved.
abbrev pub holding : Text → Snapshot → Gate → Gate
holding raw s g = record g {
  current = s;
  raw = raw;
  clock_hold = false;
  recovery_after = 0;
  failure_reason = Reason.fine;
}

-- What the gate demands of a publication that replaces its own.
pub record Replaces (now : ℕ) (s : Snapshot) (g : Gate) : Type 0 where
  pub started : s.issued_at ≤ now
  pub unexpired : now < s.expires_at
  pub newer : g.current.generation < s.generation
  pub revised : g.current.revision ≤ s.revision
  pub released : (g.clock_hold ≡ false) ⊎ (g.recovery_after ≤ s.issued_at)

module _ (codec : Codec) (validate : Text → Bool) where
  clock_cases {ℓ} :
      (P : Gate × Bool → Type ℓ) (now : ℕ) (g : Gate)
      → (now < g.last_clock → P (quarantined g, false))
      → (g.last_clock ≤ now → P (ticked now g, true))
      → P (clock codec validate now g)
  unfolding clock
  clock_cases P now g back on =
      if_cases P (ltb now g.last_clock) (λ e. back (ground arith)) (λ e. on (ground arith))

  accept_cases {ℓ} :
      (P : Gate × Result Error (Unit {0}) → Type ℓ) (saves : Bool) (now : ℕ) (raw : Text)
      (s : Snapshot) (g : Gate)
      → ((e : Error) → P (g, err e))
      → (s.generation ≡ g.current.generation → raw ≡ g.raw → P (g, ok tt))
      → (saves ≡ false → Replaces now s g → P (lost g, err Error.persistence))
      → (saves ≡ true → Replaces now s g → P (holding raw s g, ok tt))
      → P (accept codec validate saves now raw s g)
  unfolding accept
  accept_cases P saves now raw s g refused again unsaved saved =
      if_cases P (ltb now s.issued_at || leb s.expires_at now) (λ _. refused _)
        (λ timely.
          if_cases P (ltb s.generation g.current.generation || ltb s.revision g.current.revision)
            (λ _. refused _)
            (λ forward.
              if_cases P
                (g.clock_hold
                  && (leb s.generation g.current.generation || ltb s.issued_at g.recovery_after))
                (λ _. refused _)
                (λ free.
                  if_cases P (s.generation == g.current.generation)
                    (λ same.
                      if_cases (λ r. P (g, r)) (text_eq raw g.raw)
                        (λ e. again (ground arith) (text_eq_sound _ _ e)) (λ _. refused _))
                    (λ other.
                      let replaces : Replaces now s g = ground arith in
                      if_cases P (not saves) (λ e. unsaved (ground arith) replaces)
                        (λ e. saved (ground arith) replaces)))))

  module _ {ℓ} (P : Gate × Result Error (Unit {0}) → Type ℓ) (saves : Bool) (now : ℕ) (raw : Text)
      (g : Gate) where
    apply_verified_cases :
        (r : Result Error Snapshot)
        → ((e : Error) → P (g, err e))
        → ((s : Snapshot) → r ≡ ok s → raw ≡ g.raw → P (g, ok tt))
        → ((s : Snapshot) → r ≡ ok s → Replaces now s g → P (lost g, err Error.persistence))
        → ((s : Snapshot) → r ≡ ok s → saves ≡ true → Replaces now s g → P (holding raw s g, ok tt))
        → P (apply_verified codec validate saves now raw g r)
    unfolding apply_verified
    apply_verified_cases (err e) refused again unsaved saved = refused e
    apply_verified_cases (ok s) refused again unsaved saved =
        accept_cases P saves now raw s g refused (λ _. again s refl) (λ _. unsaved s refl)
          (saved s refl)

  module _ {ℓ} (P : Gate × Result Error (Unit {0}) → Type ℓ) (saves : Bool) (now : ℕ) (raw : Text)
      (g : Gate) where
    -- Every outcome of `Apply`, with what it presupposes.
    pub apply_cases :
        (g.failed ≡ true → P (g, err Error.unavailable))
        → (now < g.last_clock → P (quarantined g, err Error.unavailable))
        → ((e : Error) → g.last_clock ≤ now → P (ticked now g, err e))
        → ((s : Snapshot)
            → g.last_clock ≤ now
            → verify codec validate g raw ≡ ok s
            → raw ≡ g.raw
            → P (ticked now g, ok tt))
        → ((s : Snapshot)
            → g.last_clock ≤ now
            → verify codec validate g raw ≡ ok s
            → Replaces now s g
            → P (lost (ticked now g), err Error.persistence))
        → ((s : Snapshot)
            → g.last_clock ≤ now
            → verify codec validate g raw ≡ ok s
            → saves ≡ true
            → Replaces now s g
            → P (holding raw s (ticked now g), ok tt))
        → P (apply codec validate saves now raw g)
    unfolding apply verify verify_decoded verify_signed
    apply_cases closed back refused again unsaved saved = if_cases P g.failed closed (λ up.
        clock_cases
          (λ r. P (
            if not r.1
            then (r.0, err Error.unavailable)
            else apply_verified codec validate saves now raw r.0 (verify codec validate r.0 raw)))
          now g back
          (λ on.
            apply_verified_cases P saves now raw (ticked now g) _ (λ e. refused e on)
              (λ s. again s on) (λ s good r. unsaved s on good (ground arith))
              (λ s good ok' r. saved s on good ok' (ground arith))))

  -- What the gate demands of its publication before it serves it.
  pub record Serves (now : ℕ) (g : Gate) : Type 0 where
    pub up : g.failed ≡ false
    pub free : g.clock_hold ≡ false
    pub published : 0 < g.current.generation
    pub started : g.current.issued_at ≤ now
    pub unexpired : now < g.current.expires_at

  -- Every outcome of `Current`, with what it presupposes.
  pub current_cases {ℓ} :
      (P : Gate × Result Error Snapshot → Type ℓ) (now : ℕ) (g : Gate)
      → (g.failed ≡ true → P (g, err Error.unavailable))
      → (now < g.last_clock → P (quarantined g, err Error.unavailable))
      → (g.last_clock ≤ now → P (ticked now g, err Error.unavailable))
      → (g.last_clock ≤ now → Serves now g → P (ticked now g, ok g.current))
      → P (current codec validate now g)
  unfolding current
  current_cases P now g closed back refused served = if_cases P g.failed closed (λ up.
      clock_cases
        (λ r. P (
          if not r.1
            || r.0.clock_hold
            || r.0.current.generation == 0
            || ltb now r.0.current.issued_at
            || leb r.0.current.expires_at now
          then (r.0, err Error.unavailable)
          else (r.0, ok r.0.current)))
        now g back
        (λ on.
          if_cases P
            (g.clock_hold
              || g.current.generation == 0
              || ltb now g.current.issued_at
              || leb g.current.expires_at now)
            (λ _. refused on) (λ e. served on (ground arith))))
