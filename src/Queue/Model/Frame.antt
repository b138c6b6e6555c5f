-- ===== src/Queue/Model/Frame.antt =====
-- internal/queue/model/model.go: what every call leaves alone.
use waiting_room.Base.{ℕ, ◌<◌, ◌≡◌, refl, ◌∙◌, List, [], ◌∷◌, arith}
use waiting_room.Queue.Model.Promoting.{promote_cases}
use waiting_room.Queue.Model.Cases.{heartbeat_cases, claim_cases, join_cases}
use waiting_room.Queue.Policy.{Candidate}
use waiting_room.Queue.Model.{
  Model, Call, promote_one, promote_all, advance, joined, set_hold, start_drain, uncertain, resume,
  new_epoch, step, run, advances, joins, heartbeats, promotes, claims, sets_hold, drains,
  uncertainties, new_epochs, resumes,
}

promote_all_config : (cs : List Candidate) (m : Model) → (promote_all cs m).0.config ≡ m.config
unfolding promote_all promote_one
promote_all_config [] m = refl
promote_all_config (c ∷ cs) m = promote_all_config cs (promote_one c m).0

-- No call changes the configuration.
pub step_config : (c : Call) (m : Model) → (step c m).config ≡ m.config
unfolding step
step_config (advances to) m = unfold advance in ground arith
step_config (joins key fingerprint) m =
    join_cases (λ r. r.0.config ≡ m.config) key fingerprint m (λ _. refl) (λ _ _ _. refl)
      (λ _ _ _ _. unfold joined in refl)
step_config (heartbeats id) m =
    heartbeat_cases (λ r. r.0.config ≡ m.config) id m (λ _. refl) refl (λ _ _ _. refl)
step_config (promotes limit) m =
    promote_cases (λ r. r.0.config ≡ m.config) limit m refl (λ _. promote_all_config _ m)
step_config (claims id) m =
    claim_cases (λ r. r.0.config ≡ m.config) id m (λ _. refl) (λ _ _ _ _ _. refl) (λ _ _ _ _. refl)
step_config (sets_hold held) m = unfold set_hold in ground arith
step_config drains m = unfold start_drain in ground arith
step_config uncertainties m = unfold uncertain in refl
step_config new_epochs m = unfold new_epoch in refl
step_config (resumes verified) m = unfold resume in ground arith

pub run_config : (cs : List Call) (m : Model) → (run cs m).config ≡ m.config
unfolding run
run_config [] m = refl
run_config (c ∷ cs) m = run_config cs (step c m) ∙ step_config c m

-- A bound on the times that a call sets.
abbrev pub IsBelow : ℕ → Call → Type 0
IsBelow n (advances to) = to < n
IsBelow n _ = Unit

promote_all_now : (cs : List Candidate) (m : Model) → (promote_all cs m).0.now ≡ m.now
unfolding promote_all promote_one
promote_all_now [] m = refl
promote_all_now (c ∷ cs) m = promote_all_now cs (promote_one c m).0

-- Only `Advance` sets the clock.
pub step_now : (n : ℕ) (c : Call) (m : Model) → IsBelow n c → m.now < n → (step c m).now < n
unfolding step
step_now n (advances to) m b h = unfold advance in ground arith
step_now n (joins key fingerprint) m b h =
    join_cases (λ r. r.0.now < n) key fingerprint m (λ _. h) (λ _ _ _. h)
      (λ _ _ _ _. unfold joined in h)
step_now n (heartbeats id) m b h = heartbeat_cases (λ r. r.0.now < n) id m (λ _. h) h (λ _ _ _. h)
step_now n (promotes limit) m b h =
    promote_cases (λ r. r.0.now < n) limit m h (λ _. omega (arith, promote_all_now _ m))
step_now n (claims id) m b h =
    claim_cases (λ r. r.0.now < n) id m (λ _. h) (λ _ _ _ _ _. h) (λ _ _ _ _. h)
step_now n (sets_hold held) m b h = unfold set_hold in ground arith
step_now n drains m b h = unfold start_drain in ground arith
step_now n uncertainties m b h = unfold uncertain in h
step_now n new_epochs m b h = unfold new_epoch in h
step_now n (resumes verified) m b h = unfold resume in ground arith
