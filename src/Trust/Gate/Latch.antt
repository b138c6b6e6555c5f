-- ===== src/Trust/Gate/Latch.antt =====
-- internal/configtrust/snapshot.go: the latch of a gate whose store failed.
use waiting_room.Base.{
  ℕ, ◌≤◌, ◌≡◌, refl, ap, Bool, true, false, List, [], ◌∷◌, Option, none, some, Text, ok, err, arith,
}
use waiting_room.Trust.Codec.{Codec, Snapshot}
use waiting_room.Trust.Gate.{
  Error, Gate, verify, clock, accept, apply_verified, apply, current, recovery_request, step, run,
}
use waiting_room.Trust.Gate.Cases.{ticked, lost, Replaces}

module _ (codec : Codec) (validate : Text → Bool) where
  apply-failed :
      (saves : Bool) (now : ℕ) (raw : Text) (g : Gate)
      → g.failed ≡ true
      → apply codec validate saves now raw g ≡ (g, err Error.unavailable)
  unfolding apply
  apply-failed saves now raw g down = ground arith

  current-failed :
      (now : ℕ) (g : Gate)
      → g.failed ≡ true
      → current codec validate now g ≡ (g, err Error.unavailable)
  unfolding current
  current-failed now g down = ground arith

  step-failed :
      (c : Bool × ℕ × Option Text) (g : Gate) → g.failed ≡ true → step codec validate c g ≡ g
  unfolding step
  step-failed (saves, now, some raw) g down = ap (λ r. r.0) (apply-failed saves now raw g down)
  step-failed (saves, now, none) g down = ap (λ r. r.0) (current-failed now g down)

  run-failed :
      (cs : List (Bool × ℕ × Option Text)) (g : Gate)
      → g.failed ≡ true
      → run codec validate cs g ≡ g
  unfolding run
  run-failed [] g down = refl
  run-failed (c ∷ cs) g down = rw (step-failed c g down) (run-failed cs g down)

  apply-unsaved :
      (now : ℕ) (s : Snapshot) (g : Gate) (raw : Text)
      → verify codec validate (ticked now g) raw ≡ ok s
      → Replaces now s g
      → g.failed ≡ false
      → g.last_clock ≤ now
      → apply codec validate false now raw g ≡ (lost (ticked now g), err Error.persistence)
  unfolding apply clock apply_verified accept
  apply-unsaved now s g raw good r up on = ground arith

  no_request : (g : Gate) → g.failed ≡ true → recovery_request codec validate g ≡ none
  unfolding recovery_request
  no_request g down = ground arith

  -- Where a gate that has not failed, with a clock that does not go back, takes a publication that
  -- is verified, timely and newer but cannot be saved, `Apply` reports the lost save, and after any
  -- further calls the gate still holds the publication that it held, refuses every call, whatever
  -- publication it brings and whether or not that could be saved, and asks for no recovery.
  pub unsaved_latches :
      (now later : ℕ) (s : Snapshot) (g : Gate) (raw other : Text) (saves : Bool)
      (cs : List (Bool × ℕ × Option Text))
      → verify codec validate (ticked now g) raw ≡ ok s
      → Replaces now s g
      → g.failed ≡ false
      → g.last_clock ≤ now
      → let r = apply codec validate false now raw g in
        let h = run codec validate cs r.0 in
        (r.1 ≡ err Error.persistence)
        × (h.current ≡ g.current)
        × (h.raw ≡ g.raw)
        × (current codec validate later h ≡ (h, err Error.unavailable))
        × (apply codec validate saves later other h ≡ (h, err Error.unavailable))
        × (recovery_request codec validate h ≡ none)
  unsaved_latches now later s g raw other saves cs good r up on =
      let end = lost (ticked now g) in
      rw (apply-unsaved now s g raw good r up on) (
        rw (run-failed cs end refl) (
          refl,
          refl,
          refl,
          current-failed later end refl,
          apply-failed saves later other end refl,
          no_request end refl,
        ))
