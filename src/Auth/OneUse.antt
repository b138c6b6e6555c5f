-- ===== src/Auth/OneUse.antt =====
-- internal/adminauth/totp.go: a code names the newest counter of its window, and is used once.
use waiting_room.Base.{
  ℕ, zero, suc, ◌+◌, ◌/◌, ◌≤◌, ◌<◌, ◌≡◌, ◌≢◌, ◌⊎◌, inl, inr, refl, sym, ap, ◌∙◌, subst, arith,
  Bool-cases, Bool, true, false, [], ◌∷◌, Option, none, some, if◌then◌else◌, Text, text_eq_iff, ok,
}
use waiting_room.Base.Int.{ℤ, pos}
use waiting_room.Auth.Totp.{
  Secret, CredentialRef, totp_period, totp_digits, hotp, counters, latest, matches, match_counter,
  answered, attempt, verify_and_consume,
}

two : (d m : ℕ) → m ≤ d → d ≤ suc m → (d ≡ m) ⊎ (d ≡ suc m)
two d m l u = ground arith

-- The newest of a window's counters at which a test holds.
abbrev Newest : (ℕ → Bool) → ℕ → ℕ → Type 0
Newest p current c =
    (p c ≡ true)
    × (current ≤ c + 1)
    × (c ≤ current + 1)
    × ((d : ℕ) → c < d → d ≤ current + 1 → p d ≡ false)

moved : (p : ℕ → Bool) (b : Bool) (m n : ℕ) → m ≡ n → p m ≡ b → p n ≡ b
moved p b m n e h = subst (λ k. p k ≡ b) e h

-- The three tests from the newest counter down, `found` being the outcome of the oldest.
newest :
    (p : ℕ → Bool) (k c : ℕ) (oldest : Option ℕ)
    → (oldest ≡ some c → (p c ≡ true) × (c + 1 ≡ k))
    → (if p (suc k) then some (suc k) else if p k then some k else oldest) ≡ some c
    → Newest p k c
newest p k c oldest old h = elim (Bool-cases (p (suc k))) [
  | inl new ↦
      (let e : suc k ≡ c = ground arith in
        (moved p true (suc k) c e new, omega arith, omega arith, λ d l u. absurd (omega arith)))
  | inr not_new ↦ elim (Bool-cases (p k)) [
    | inl now ↦
        (let e : k ≡ c = ground arith in
          (
            moved p true k c e now,
            omega arith,
            omega arith,
            λ d l u. moved p false (suc k) d (omega arith) not_new,
          ))
    | inr not_now ↦
        (let (yes', e) = old (ground arith) in
          (
            yes',
            omega arith,
            omega arith,
            λ d l u. elim (two d k (omega arith) (omega arith)) [
              | inl e ↦ moved p false k d (sym e) not_now
              | inr e ↦ moved p false (suc k) d (sym e) not_new
            ],
          ))
  ]
]

counters-suc : (k : ℕ) → counters (suc k) ≡ k ∷ suc k ∷ suc (suc k) ∷ []
counters-suc k = ground arith

latest_window :
    (p : ℕ → Bool) (current c : ℕ) → latest p none (counters current) ≡ some c → Newest p current c
unfolding latest
latest_window p zero c h = newest p zero c none (λ e. absurd cc) h
latest_window p (suc k) c h =
    newest p (suc k) c (if p k then some k else none) (λ e. ground arith)
      (subst (λ cs. latest p none cs ≡ some c) (counters-suc k) h)

module _ (hmac_sha1 : Text → Text → Text) where
  -- The counters that a time admits: the step of thirty seconds, and one to each side.
  abbrev pub InWindow : ℕ → ℕ → Type 0
  InWindow now c = (now / totp_period ≤ c + 1) × (c ≤ now / totp_period + 1)

  match_counter-latest :
      (secret : Secret) (code : Text) (now c : ℕ)
      → match_counter hmac_sha1 secret code (pos now) ≡ some c
      → latest (matches hmac_sha1 secret code) none (counters (now / totp_period)) ≡ some c
  unfolding match_counter
  match_counter-latest secret code now c h = ground arith

  -- A code that matches at a time is the code of the counter returned, which lies within a step of
  -- thirty seconds of the time, and of no newer counter that does.
  pub match_counter_newest :
      (secret : Secret) (code : Text) (now c : ℕ)
      → match_counter hmac_sha1 secret code (pos now) ≡ some c
      → (hotp hmac_sha1 secret.key c totp_digits ≡ code)
        × InWindow now c
        × ((d : ℕ) → c < d → InWindow now d → hotp hmac_sha1 secret.key d totp_digits ≢ code)
  match_counter_newest secret code now c h =
      let (hit, low, high, newer) =
        latest_window (matches hmac_sha1 secret code) (now / totp_period) c
          (match_counter-latest secret code now c h) in
      (
        (text_eq_iff (hotp hmac_sha1 secret.key c totp_digits) code).0 hit,
        (low, high),
        λ d l w e.
            absurd (
              cc (newer d l w.1, (text_eq_iff (hotp hmac_sha1 secret.key d totp_digits) code).1 e)),
      )

  -- What the code documents of the store, with the least counter that it would still accept for a
  -- credential: it refuses a counter below, and one that it accepts it never accepts again.
  module _ {S : Type 0} (consume : S → CredentialRef → ℕ → S × Option Bool) where
    pub record IsStore (floor : S → CredentialRef → ℕ) : Type 0 where
      pub refuses :
          (s : S) (r : CredentialRef) (c : ℕ) → c < floor s r → (consume s r c).1 ≢ some true
      pub records :
          (s : S) (r : CredentialRef) (c : ℕ)
          → (consume s r c).1 ≡ some true
          → c < floor (consume s r c).0 r

    answered_ok :
        (x : S × Option Bool)
        → (answered hmac_sha1 consume x).1 ≡ ok tt
        → (x.1 ≡ some true) × ((answered hmac_sha1 consume x).0 ≡ x.0)
    answered_ok (s, none) h = absurd cc
    answered_ok (s, some true) h = (refl, refl)
    answered_ok (s, some false) h = absurd cc

    -- An attempt that succeeds consumed the counter.
    attempt_ok :
        (ref : CredentialRef) (o : Option ℕ) (s : S)
        → (attempt hmac_sha1 consume ref o s).1 ≡ ok tt
        → (c : ℕ) × (o ≡ some c)
          × ((consume s ref c).1 ≡ some true)
          × ((attempt hmac_sha1 consume ref o s).0 ≡ (consume s ref c).0)
    attempt_ok ref none s h = absurd cc
    attempt_ok ref (some c) s h =
        let (yes', same) = answered_ok (consume s ref c) h in (c, refl, yes', same)

    verify_ok :
        (ref : CredentialRef) (secret : Secret) (code : Text) (now : ℤ) (s : S)
        → (verify_and_consume hmac_sha1 consume true ref secret code now s).1 ≡ ok tt
        → (verify_and_consume hmac_sha1 consume true ref secret code now s)
          ≡ attempt hmac_sha1 consume ref (match_counter hmac_sha1 secret code now) s
    unfolding verify_and_consume
    verify_ok ref secret code now s h = ground arith

    pub verify_consumes :
        (ref : CredentialRef) (secret : Secret) (code : Text) (now : ℤ) (s : S)
        → (verify_and_consume hmac_sha1 consume true ref secret code now s).1 ≡ ok tt
        → (c : ℕ) × (match_counter hmac_sha1 secret code now ≡ some c)
          × ((consume s ref c).1 ≡ some true)
          × ((verify_and_consume hmac_sha1 consume true ref secret code now s).0
              ≡ (consume s ref c).0)
    verify_consumes ref secret code now s h =
        let e = verify_ok ref secret code now s h in
        let (c, m, a, t) =
          attempt_ok ref (match_counter hmac_sha1 secret code now) s (sym (ap (λ r. r.1) e) ∙ h) in
        (c, m, a, ap (λ r. r.0) e ∙ t)

    -- With a store that refuses counters below a floor and raises it past each counter that it
    -- accepts, a code that was verified once is not verified again at the same time, in any state
    -- of the store whose floor for the credential is not below the one that verifying it left.
    pub verify_once :
        {floor : S → CredentialRef → ℕ} (ref : CredentialRef) (secret : Secret) (code : Text)
        (now : ℤ) (s s' later : S)
        → IsStore floor
        → verify_and_consume hmac_sha1 consume true ref secret code now s ≡ (s', ok tt)
        → floor s' ref ≤ floor later ref
        → (verify_and_consume hmac_sha1 consume true ref secret code now later).1 ≢ ok tt
    verify_once {floor} ref secret code now s s' later store h grown again =
        let (c, m, a, t) = verify_consumes ref secret code now s (ap (λ r. r.1) h) in
        let (d, n, b, u) = verify_consumes ref secret code now later again in
        let left =
          subst (λ x. c < floor x ref) (sym t ∙ ap (λ r. r.0) h) (store.records s ref c a) in
        let same : c ≡ d = ground (arith, m, n) in
        store.refuses later ref d (omega (arith, left, same, grown)) b
