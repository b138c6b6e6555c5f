-- ===== src/Trust/Gate/Quarantine.antt =====
-- internal/configtrust/snapshot.go: the quarantine after a clock that went back.
use waiting_room.Base.{
  ℕ, ◌↔◌, ◌≤◌, ◌<◌, ◌≡◌, refl, ap, subst, Bool, true, false, List, [], ◌∷◌, Option, none, some,
  Text, Result, ok, err, arith, ◌⊎◌, inl, inr, Bool-cases,
}
use waiting_room.Trust.Codec.{Codec, Snapshot, ClockRecovery}
use waiting_room.Trust.Gate.{
  Error, Gate, verify, clock, apply, current, recovery_request, step, run,
}
use waiting_room.Trust.Gate.Cases.{quarantined, apply_cases, current_cases}
use waiting_room.Trust.Gate.Safety.{step-Advances}

module _ (codec : Codec) (validate : Text → Bool) where
  rollback_quarantines :
      (saves : Bool) (now : ℕ) (raw : Text) (g : Gate)
      → g.failed ≡ false
      → now < g.last_clock
      → (apply codec validate saves now raw g ≡ (quarantined g, err Error.unavailable))
        × (current codec validate now g ≡ (quarantined g, err Error.unavailable))
  unfolding apply current clock
  rollback_quarantines saves now raw g up back = ground arith

  -- What a call on a gate in quarantine leaves: still quarantine, with nothing served or replaced,
  -- or the one way out.
  abbrev pub Release : Bool × ℕ × Option Text → Gate → Gate → Type 0
  Release (saves, now, m) g h =
      (raw : Text) × (s : Snapshot) × (m ≡ some raw)
      × (verify codec validate g raw ≡ ok s)
      × (saves ≡ true)
      × (g.current.generation < s.generation)
      × (g.recovery_after ≤ s.issued_at)
      × (h.current ≡ s)

  -- A call takes a gate out of quarantine only by publishing: bytes that the gate's check accepts,
  -- durably saved, of a newer generation, issued at or after the clock that the gate had seen.
  pub released_by_publication :
      (c : Bool × ℕ × Option Text) (g : Gate)
      → g.clock_hold ≡ true
      → (step codec validate c g).clock_hold ≡ false
      → Release c g (step codec validate c g)
  unfolding step
  released_by_publication (saves, now, some raw) g held =
      apply_cases codec validate
        (λ r. r.0.clock_hold ≡ false → Release (saves, now, some raw) g r.0) saves now raw g
        (λ _ e. absurd (cc (held, e))) (λ _ e. absurd (cc e)) (λ _ _ e. absurd (cc (held, e)))
        (λ _ _ _ _ e. absurd (cc (held, e))) (λ _ _ _ _ e. absurd (cc (held, e)))
        (λ s _ good saved r e. (raw, s, refl, good, saved, r.newer, ground arith, refl))
  released_by_publication (saves, now, none) g held =
      current_cases codec validate (λ r. r.0.clock_hold ≡ false → Release (saves, now, none) g r.0)
        now g (λ _ e. absurd (cc (held, e))) (λ _ e. absurd (cc e)) (λ _ e. absurd (cc (held, e)))
        (λ _ _ e. absurd (cc (held, e)))

  -- A gate in quarantine serves nothing, at any clock, and stays in quarantine.
  pub quarantine_serves_nothing :
      (now : ℕ) (g : Gate)
      → g.clock_hold ≡ true
      → ((current codec validate now g).1 ≡ err Error.unavailable)
        × ((current codec validate now g).0.clock_hold ≡ true)
  unfolding current clock
  quarantine_serves_nothing now g held = ground arith

  -- A gate asks for recovery exactly when it holds a publication in quarantine and has not failed,
  -- and it asks for one of that generation that starts at the clock that it had seen.
  pub recovery_request_iff :
      (g : Gate) (r : ClockRecovery)
      → (recovery_request codec validate g ≡ some r) ↔ (
          (g.failed ≡ false)
          × (g.clock_hold ≡ true)
          × (0 < g.current.generation)
          × (r.generation ≡ g.current.generation)
          × (r.not_before ≡ g.recovery_after)
          × (r.digest ≡ codec.digest g.raw))
  unfolding recovery_request
  recovery_request_iff g r = (λ e. ground arith, λ e. ground arith)

  rolled_back :
      (c : Bool × ℕ × Option Text) (g : Gate)
      → g.failed ≡ false
      → c.1 < g.last_clock
      → step codec validate c g ≡ quarantined g
  unfolding step
  rolled_back (saves, now, some raw) g up back =
      ap (λ r. r.0) (rollback_quarantines saves now raw g up back).0
  rolled_back (saves, now, none) g up back =
      ap (λ r. r.0) (rollback_quarantines true now [] g up back).1

  -- The gate is in quarantine, or holds a publication of a generation above `n`.
  Past : ℕ → Gate → Type 0
  Past n g = ((g.clock_hold ≡ true) × (n ≤ g.current.generation)) ⊎ (n < g.current.generation)

  step-Past :
      (n : ℕ) (c : Bool × ℕ × Option Text) (g : Gate) → Past n g → Past n (step codec validate c g)
  unfolding Past
  step-Past n c g (inr above) = inr (omega (arith, (step-Advances codec validate c g).0))
  step-Past n c g (inl (held, up)) = elim (Bool-cases (step codec validate c g).clock_hold) [
    | inl still ↦ inl (still, omega (arith, (step-Advances codec validate c g).0))
    | inr free ↦
        let (_, s, _, _, _, newer, _, is_s) = released_by_publication c g held free in
        inr (omega (arith, ap (λ x. x.generation) is_s))
  ]

  run-Past :
      (n : ℕ) (cs : List (Bool × ℕ × Option Text)) (g : Gate)
      → Past n g
      → Past n (run codec validate cs g)
  unfolding run
  run-Past n [] g p = p
  run-Past n (c ∷ cs) g p = run-Past n cs (step codec validate c g) (step-Past n c g p)

  Newer : ℕ → Gate × Result Error Snapshot → Type 0
  Newer n (h, ok s) = n < s.generation
  Newer n (h, err e) = Unit

  served-Newer : (n now : ℕ) (g : Gate) → Past n g → Newer n (current codec validate now g)
  unfolding Past Newer
  served-Newer n now g p =
      current_cases codec validate (Newer n) now g (λ _. tt) (λ _. tt) (λ _. tt)
        (λ _ v. ground arith)

  -- A publication does not survive a rollback of the clock: after a call with a clock below the highest
  -- that the gate saw, on a gate that has not failed, and any further calls, whatever `Current` serves
  -- is of a generation above the one that the gate held at the rollback.
  pub rollback_retires :
      (c : Bool × ℕ × Option Text) (cs : List (Bool × ℕ × Option Text)) (now : ℕ) (g : Gate)
      {h : Gate} {s : Snapshot}
      → g.failed ≡ false
      → c.1 < g.last_clock
      → current codec validate now (run codec validate (c ∷ cs) g) ≡ (h, ok s)
      → g.current.generation < s.generation
  unfolding run Newer Past
  rollback_retires c cs now g up back e =
      let n = g.current.generation in
      let start : Past n (step codec validate c g) =
        rw (rolled_back c g up back) (inl (refl, omega arith)) in
      subst (Newer n) e (
        served-Newer n now (run codec validate cs (step codec validate c g))
          (run-Past n cs (step codec validate c g) start))
