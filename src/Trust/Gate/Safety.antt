-- ===== src/Trust/Gate/Safety.antt =====
-- internal/configtrust/snapshot.go: what the gate never does, in any sequence of calls.
use waiting_room.Base.{
  ℕ, ◌≤◌, ◌<◌, ◌≡◌, subst, Bool, false, List, [], ◌∷◌, Option, none, some, Text, Result, ok, err,
  arith, inl, inr, ◌⊎◌,
}
use waiting_room.Trust.Codec.{Codec, Snapshot}
use waiting_room.Trust.Gate.{Error, Gate, verify, verify_decoded, verify_signed, current, step, run}
use waiting_room.Trust.Gate.Cases.{ticked, Serves, apply_cases, current_cases}

-- Nothing is lowered, and the trust roots stay.
abbrev pub Advances : Gate → Gate → Type 0
Advances g h =
    (g.current.generation ≤ h.current.generation)
    × (g.current.revision ≤ h.current.revision)
    × (g.last_clock ≤ h.last_clock)
    × (g.keys ≡ h.keys)
    × (g.installation ≡ h.installation)
    × (g.minimum ≡ h.minimum)

Advances-trans : (g h k : Gate) → Advances g h → Advances h k → Advances g k
Advances-trans g h k a b = ground arith

module _ (codec : Codec) (validate : Text → Bool) where
  -- The publication that a gate holds: none yet, or one that its own check accepts.
  abbrev pub Backed : Gate → Type 0
  Backed g = (g.current.generation ≡ 0) ⊎ (verify codec validate g g.raw ≡ ok g.current)

  pub step-Advances : (c : Bool × ℕ × Option Text) (g : Gate) → Advances g (step codec validate c g)
  unfolding step
  step-Advances (saves, now, some raw) g =
      apply_cases codec validate (λ r. Advances g r.0) saves now raw g (λ down. ground arith)
        (λ back. ground arith) (λ e on. ground arith) (λ s on good same. ground arith)
        (λ s on good r. ground arith) (λ s on good saved r. ground arith)
  step-Advances (saves, now, none) g =
      current_cases codec validate (λ r. Advances g r.0) now g (λ down. ground arith)
        (λ back. ground arith) (λ on. ground arith) (λ on v. ground arith)

  -- No sequence of calls rolls a gate back: the generation and the revision that it holds and the
  -- highest clock that it saw never fall, and its keys, installation and minimum never change.
  pub run-Advances :
      (cs : List (Bool × ℕ × Option Text)) (g : Gate) → Advances g (run codec validate cs g)
  unfolding run
  run-Advances [] g = ground arith
  run-Advances (c ∷ cs) g =
      Advances-trans g (step codec validate c g) (run codec validate cs (step codec validate c g))
        (step-Advances c g) (run-Advances cs (step codec validate c g))

  step-Backed :
      (c : Bool × ℕ × Option Text) (g : Gate) → Backed g → Backed (step codec validate c g)
  unfolding step verify verify_decoded verify_signed
  step-Backed (saves, now, some raw) g b =
      apply_cases codec validate (λ r. Backed r.0) saves now raw g (λ _. b) (λ _. b) (λ _ _. b)
        (λ _ _ _ _. b) (λ _ _ _ _. b) (λ s _ good _ r. inr good)
  step-Backed (saves, now, none) g b =
      current_cases codec validate (λ r. Backed r.0) now g (λ _. b) (λ _. b) (λ _. b) (λ _ _. b)

  pub run-Backed :
      (cs : List (Bool × ℕ × Option Text)) (g : Gate) → Backed g → Backed (run codec validate cs g)
  unfolding run
  run-Backed [] g b = b
  run-Backed (c ∷ cs) g b = run-Backed cs (step codec validate c g) (step-Backed c g b)

  -- What a served snapshot is known to be.
  abbrev Trusted : ℕ → Gate × Result Error Snapshot → Type 0
  Trusted now (h, err x) = Unit
  Trusted now (h, ok t) =
      (verify codec validate h h.raw ≡ ok t)
      × (t.issued_at ≤ now)
      × (now < t.expires_at)
      × (h.failed ≡ false)
      × (h.clock_hold ≡ false)

  served-Trusted :
      (now : ℕ) (g : Gate)
      → Serves codec validate now g
      → Backed g
      → Trusted now (ticked now g, ok g.current)
  unfolding verify verify_decoded verify_signed
  served-Trusted now g v (inl none') = absurd (omega arith)
  served-Trusted now g v (inr good) = (good, v.started, v.unexpired, v.up, v.free)

  -- After any calls on a gate that started backed, whatever `Current` serves was accepted by the
  -- gate's own check of its bytes, lies within its validity, and comes from a gate that neither
  -- failed nor is in quarantine.
  pub current_trusted :
      (cs : List (Bool × ℕ × Option Text)) (start : Gate) (now : ℕ) {g : Gate} {s : Snapshot}
      → Backed start
      → current codec validate now (run codec validate cs start) ≡ (g, ok s)
      → (verify codec validate g g.raw ≡ ok s)
        × (s.issued_at ≤ now)
        × (now < s.expires_at)
        × (g.failed ≡ false)
        × (g.clock_hold ≡ false)
  current_trusted cs start now {g} {s} b e =
      let end = run codec validate cs start in
      subst (Trusted now) e (
        current_cases codec validate (Trusted now) now end (λ _. tt) (λ _. tt) (λ _. tt)
          (λ _ v. served-Trusted now end v (run-Backed cs start b)))
