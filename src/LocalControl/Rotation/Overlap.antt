-- ===== src/LocalControl/Rotation/Overlap.antt =====
-- internal/localcontrol/rotation.go: how long a key that signed is still trusted.
use waiting_room.Base.{
  ℕ, ◌+◌, ◌≤◌, ◌<◌, ◌≡◌, ◌≢◌, ◌⊎◌, inl, inr, refl, sym, ap, ◌∙◌, subst, arith, Bool, false, not,
  ◌||◌, List, Option, none, some, ◌==◌, if_cases, codes, text_eq, length, Result, ok, err,
}
use waiting_room.Base.Int.{pos, leb_ℤ, ltb_ℤ, ◌≤ℤ◌, ◌+ℤ◌}
use waiting_room.Keyring.{Key, Set, Ed25519, validate, refused_phase, owner, present}
use waiting_room.LocalControl.Rotation.{
  Operation, Error, File, Disk, Files, Database, Clock, rotate, unix_milli, overlap_ms, margin,
  is_phase, staging, activated, activation, retired, load_rotation, acks_of, emergency_of,
}
use waiting_room.Auth.Store.{Commit}
use waiting_room.LocalControl.Rotation.Calls.{
  Outcome, changed_disk, operated, operate, on_journal, is_status, is_unknown, bound, rotate_keys,
}
use waiting_room.LocalControl.Rotation.Identity.{State, Write, Crypto}
use waiting_room.LocalControl.Rotation.Journal.{finish-Leaves, accepted_keys}

-- A key that was current at the time `t`, in milliseconds: it is current, or it is the previous key of
-- one that is current since then, or the overlap is over.
abbrev IsCovered : Key → ℕ → ℕ → Set → Type 0
IsCovered k t now s =
    (s.current ≡ k) ⊎ ((s.previous ≡ some k) × (pos t ≤ℤ s.current.since)) ⊎ (t + overlap_ms ≤ now)

-- A set in which the previous key is there exactly in the phase "active".
abbrev IsPaired : Set → Type 0
IsPaired s = is_phase s (codes "active") ≡ present s.previous

phase-IsPaired : (s : Set) → refused_phase s ≡ false → IsPaired s
unfolding refused_phase
phase-IsPaired s h = ground arith

validate-IsPaired : (ed : Ed25519) (s : Set) → validate ed s owner ≡ none → IsPaired s
unfolding validate
validate-IsPaired ed s v = phase-IsPaired s (ground arith)

margin_le : (t now : ℕ) → t ≤ unix_milli now → t ≤ unix_milli (now + margin)
margin_le t now h = omega arith

-- What holds of the set that an operation returns.
abbrev Returns : (Set → Type 0) → Result Error (Set × Bool) → Type 0
Returns P (err e) = Unit
Returns P (ok (s, changed)) = P s

still-IsCovered :
    (k : Key) (t before now : ℕ) (s : Set)
    → before ≤ now
    → IsCovered k t before s
    → IsCovered k t now s
still-IsCovered k t before now s h (inl e) = inl e
still-IsCovered k t before now s h (inr (inl e)) = inr (inl e)
still-IsCovered k t before now s h (inr (inr e)) = inr (inr (omega arith))

activated_covers :
    (k : Key) (t before : ℕ) (s s' : Set) (now : ℕ)
    → IsPaired s
    → is_phase s (codes "active") ≡ false
    → t ≤ now
    → before ≤ now
    → s'.previous ≡ some s.current
    → pos now ≤ℤ s'.current.since
    → IsCovered k t before s
    → IsCovered k t now s'
activated_covers k t before s s' now p idle le late e since (inl c) =
    inr (inl (e ∙ ap some c, omega arith))
activated_covers k t before s s' now p idle le late e since (inr (inl c)) =
    absurd (cc (ap present c.0))
activated_covers k t before s s' now p idle le late e since (inr (inr c)) = inr (inr (omega arith))

retired_covers :
    (k : Key) (t before : ℕ) (s s' : Set) (now : ℕ)
    → s'.current ≡ s.current
    → ltb_ℤ (pos now) (s.current.since +ℤ pos overlap_ms) ≡ false
    → before ≤ now
    → IsCovered k t before s
    → IsCovered k t now s'
retired_covers k t before s s' now e over late (inl c) = inl (e ∙ c)
retired_covers k t before s s' now e over late (inr (inl c)) = inr (inr (ground arith))
retired_covers k t before s s' now e over late (inr (inr c)) = inr (inr (omega arith))

-- The operation's set covers the key if the set before it does.
module _ (k : Key) (t before : ℕ) (s : Set) (acks : ℕ) (emergency : Bool) (now : ℕ)
    (generated : Option Key) (p : IsPaired s) (le : t ≤ unix_milli now)
    (late : before ≤ unix_milli now) (c : IsCovered k t before s) where
  abbrev Covers : Result Error (Set × Bool) → Type 0
  Covers = Returns (IsCovered k t (unix_milli now))

  kept : IsCovered k t (unix_milli now) s
  kept = still-IsCovered k t before (unix_milli now) s late c

  staging-Covers : (o : Option Key) → Covers (staging s o)
  staging-Covers none = tt
  staging-Covers (some j) = kept

  activation-Covers :
      (o : Option Key) → is_phase s (codes "active") ≡ false → Covers (activation s now o)
  activation-Covers none idle = tt
  activation-Covers (some j) idle =
      if_cases Covers (leb_ℤ (pos (unix_milli (now + margin))) s.current.since) (λ h. tt)
        (λ h.
          activated_covers k t before s (activated s j (unix_milli (now + margin))) (unix_milli now)
            p idle le late refl (omega (arith, margin_le (unix_milli now) now)) c)

  rotate-Covers :
      (op : Operation) → op ≢ Operation.revoke → Covers (rotate s op acks emergency now generated)
  unfolding rotate
  rotate-Covers Operation.status n = kept
  rotate-Covers Operation.unknown n = tt
  rotate-Covers Operation.stage n =
      if_cases Covers (is_phase s (codes "active")) (λ h. tt)
        (λ h.
          if_cases Covers (is_phase s (codes "staged")) (λ i. kept) (λ i. staging-Covers generated))
  rotate-Covers Operation.activate n =
      if_cases Covers (is_phase s (codes "active")) (λ h. kept)
        (λ h.
          if_cases Covers (not (is_phase s (codes "staged")) || not (acks == 2)) (λ i. tt)
            (λ i. activation-Covers s.next h))
  rotate-Covers Operation.retire n =
      if_cases Covers (is_phase s (codes "stable")) (λ h. kept)
        (λ h.
          if_cases Covers (not (is_phase s (codes "active")) || not (acks == 2)) (λ i. tt)
            (λ i.
              if_cases Covers (ltb_ℤ (pos (unix_milli now)) (s.current.since +ℤ pos overlap_ms))
                (λ j. tt)
                (λ j. retired_covers k t before s (retired s) (unix_milli now) refl j late c)))
  rotate-Covers Operation.revoke n = absurd (n refl)

-- The journal of a set that covers the key.
abbrev IsKept : Key → ℕ → ℕ → File Disk → Type 0
IsKept k t now (File.holds d) = IsCovered k t now d.keys
IsKept k t now _ = ⊥

later-IsKept :
    (k : Key) (since before now : ℕ) (j : File Disk)
    → before ≤ now
    → IsKept k since before j
    → IsKept k since now j
later-IsKept k since before now (File.holds d) h q = still-IsCovered k since before now d.keys h q
later-IsKept k since before now File.missing h q = q
later-IsKept k since before now File.unreadable h q = q

module _ (c : Crypto) (st : State) (op : Operation) (t : Clock) (generated : Option Key)
    (ws : List Write) (commits : Commit) (f : Files) (db : Database) (k : Key) (since before : ℕ)
    (n : op ≢ Operation.revoke) (le : since ≤ unix_milli t.now)
    (late : before ≤ unix_milli t.now) where
  abbrev Keeps : Outcome → Type 0
  Keeps o = IsKept k since (unix_milli t.now) o.0.journal

  operated-Keeps :
      (d : Disk) (r : Result Error (Set × Bool))
      → IsKept k since (unix_milli t.now) f.journal
      → Returns (IsCovered k since (unix_milli t.now)) r
      → Keeps (operated c st op ws commits d f db r)
  operated-Keeps d (err e) p q = p
  operated-Keeps d (ok (s, changed)) p q =
      finish-Leaves (IsKept k since (unix_milli t.now)) c st op (changed_disk c d s changed) ws
        commits f db p q

  operate-Keeps :
      (d : Disk)
      → f.journal ≡ File.holds d
      → IsPaired d.keys
      → IsCovered k since before d.keys
      → Keeps (operate c st op t generated ws commits d f db)
  unfolding operate
  operate-Keeps d e p q =
      let acks = acks_of c.ed c.hash db d.keys t.acks_at in
      let emergency = emergency_of c.ed c.hash db d.keys acks t.audit_at in
      let still = still-IsCovered k since before (unix_milli t.now) d.keys late q in
      let p' : IsKept k since (unix_milli t.now) f.journal =
        subst (IsKept k since (unix_milli t.now)) (sym e) still in
      if_cases Keeps (is_status op) (λ h. p')
        (λ h.
          operated-Keeps d (rotate d.keys op acks emergency t.now generated) p'
            (rotate-Covers k since before d.keys acks emergency t.now generated p le late q op n))

  -- A journal that is there is loaded, and is valid, or the call fails.
  journal-Keeps :
      (j : File Disk)
      → f.journal ≡ j
      → IsKept k since before j
      → Keeps
          (on_journal c st op t generated ws commits f db (load_rotation c.ed c.hash st.binding j))
  unfolding load_rotation
  journal-Keeps (File.holds d) e q =
      let refused =
        not (text_eq d.binding st.binding)
        || present (validate c.ed d.keys owner)
        || not (length d.before == 64) in
      let still = still-IsCovered k since before (unix_milli t.now) d.keys late q in
      if_cases (λ (r : Result Error Disk). Keeps (on_journal c st op t generated ws commits f db r))
        refused (λ h. subst (IsKept k since (unix_milli t.now)) (sym e) still)
        (λ h.
          operate-Keeps d e (validate-IsPaired c.ed d.keys (accepted_keys c.ed d st.binding h)) q)
  journal-Keeps File.missing e q = absurd q
  journal-Keeps File.unreadable e q = absurd q

  rotate_keys-Keeps :
      IsKept k since before f.journal → Keeps (rotate_keys c st op t generated ws commits f db)
  unfolding rotate_keys
  rotate_keys-Keeps q =
      if_cases Keeps (is_unknown op || not (bound st db))
        (λ h. later-IsKept k since before (unix_milli t.now) f.journal late q)
        (λ h. journal-Keeps f.journal refl q)

-- A history of calls of the owner, none of which is "revoke", from one reading of the clock and the
-- files to another; the tables, the keys made, and the writes and commits that fail are arbitrary.
pub data History (c : Crypto) (st : State) (since : ℕ) (f : Files) : ℕ → Files → Type 0 where
  start : History c st since f since f
  call :
      {before : ℕ} {g : Files} (op : Operation) (t : Clock) (generated : Option Key)
      (ws : List Write) (commits : Commit) (db : Database)
      → History c st since f before g
      → op ≢ Operation.revoke
      → before ≤ unix_milli t.now
      → History c st since f (unix_milli t.now) (rotate_keys c st op t generated ws commits g db).0

later-History :
    (c : Crypto) (st : State) (since : ℕ) (f : Files) {now : ℕ} {g : Files}
    → History c st since f now g
    → since ≤ now
later-History c st since f History.start = omega arith
later-History c st since f (History.call op t generated ws commits db h n le) =
    omega (arith, later-History c st since f h)

History-IsKept :
    (c : Crypto) (st : State) (since : ℕ) (f : Files) (d : Disk) {now : ℕ} {g : Files}
    → f.journal ≡ File.holds d
    → History c st since f now g
    → IsKept d.keys.current since now g.journal
History-IsKept c st since f d e History.start =
    subst (IsKept d.keys.current since since) (sym e) (inl refl)
History-IsKept c st since f d e (History.call {before} {g} op t generated ws commits db h n le) =
    rotate_keys-Keeps c st op t generated ws commits g db d.keys.current since before n
      (omega (arith, later-History c st since f h)) le (History-IsKept c st since f d e h)

-- Let a key be the current one of the owner's journal at a time in milliseconds. After any sequence
-- of calls of RotateKeys other than "revoke" with a clock that does not go back, whichever of their
-- writes and commits fail, and before 24 hours and 30 seconds have passed since that time, there is
-- a journal whose current or previous key is that key.
pub History-trusted :
    (c : Crypto) (st : State) (since : ℕ) (f : Files) (d : Disk) (now : ℕ) (g : Files)
    → f.journal ≡ File.holds d
    → History c st since f now g
    → now < since + overlap_ms
    → (d' : Disk) × (g.journal ≡ File.holds d')
      × ((d'.keys.current ≡ d.keys.current) ⊎ (d'.keys.previous ≡ some d.keys.current))
History-trusted c st since f d now g e h over =
    trusted g.journal refl (History-IsKept c st since f d e h)
  where
    trusted :
        (j : File Disk)
        → g.journal ≡ j
        → IsKept d.keys.current since now j
        → (d' : Disk) × (g.journal ≡ File.holds d')
          × ((d'.keys.current ≡ d.keys.current) ⊎ (d'.keys.previous ≡ some d.keys.current))
    trusted (File.holds d') same (inl k) = (d', same, inl k)
    trusted (File.holds d') same (inr (inl k)) = (d', same, inr k.0)
    trusted (File.holds d') same (inr (inr k)) = absurd (omega arith)
    trusted File.missing same k = absurd k
    trusted File.unreadable same k = absurd k
