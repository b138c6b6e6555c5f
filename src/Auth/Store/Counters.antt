-- ===== src/Auth/Store/Counters.antt =====
-- internal/adminauth/pgstore/store.go: what the login's consumer of a counter does where it accepts,
-- and that it is a store such as VerifyAndConsume asks for.
use waiting_room.Base.{
  ℕ, suc, ◌<◌, ◌≤◌, ◌≡◌, refl, sym, ap, ◌∙◌, subst, arith, Bool, true, false, not, ◌||◌, Option,
  none, some, ◌==◌, ltb, if◌then◌else◌, if_cases, some_cases, Text, codes, text_eq_iff, lookup,
  insert, lookup-insert_self, match_some,
}
use waiting_room.Base.Int.{ℤ, pos, negsuc, ltb_ℤ}
use waiting_room.Auth.Totp.{CredentialRef}
use waiting_room.Auth.OneUse.{IsStore}
use waiting_room.Auth.Store.{Credential, Challenge, Tables, Commit, Library, audit_auth}
use waiting_room.Auth.Store.Login.{
  Draw, Tx, Consumer, same_ref, max_counter, is_open, settle, counted, used, opened, session_row,
  open_session, use_challenge, count_up, consume_counter,
}

-- The tables but for the audit.
abbrev pub SameTables : Tables → Tables → Type 0
SameTables a b =
    (a.policy ≡ b.policy)
    × (a.accounts ≡ b.accounts)
    × (a.credentials ≡ b.credentials)
    × (a.challenges ≡ b.challenges)
    × (a.sessions ≡ b.sessions)
    × (a.proofs ≡ b.proofs)

pub audit_auth-same :
    (lib : Library) (drawn : Bool) (user action result : Text) (db w : Tables)
    → audit_auth lib drawn user action result db ≡ some w
    → SameTables w db
unfolding audit_auth
audit_auth-same lib drawn user action result db w h =
    (ground arith, ground arith, ground arith, ground arith, ground arith, ground arith)

-- What an accepted counter found, and what it left.
pub record Accepted (d : Draw) (c : Consumer) (before after : Tables) (counter : ℕ) : Type 0 where
  pub row : Credential
  pub challenge : Challenge
  pub has_row : lookup c.ref.user_id before.credentials ≡ some row
  pub has_challenge : lookup c.challenge_hash before.challenges ≡ some challenge
  pub current : row.version ≡ c.ref.version
  pub newer : ltb_ℤ row.last_counter (pos counter) ≡ true
  pub live : is_open challenge d.challenge_at ≡ true
  pub unconsumed : challenge.consumed ≡ false
  pub attempts_left : challenge.attempts < 5
  pub timely : (challenge.created_at ≤ d.challenge_at) × (d.challenge_at < challenge.expires_at)
  pub fresh : lookup c.session_hash before.sessions ≡ none
  pub policy_same : after.policy ≡ before.policy
  pub accounts_same : after.accounts ≡ before.accounts
  pub credentials_set :
      after.credentials
      ≡ insert c.ref.user_id (record row { last_counter = pos counter }) before.credentials
  pub challenges_set :
      after.challenges
      ≡ insert c.challenge_hash (record challenge { consumed = true }) before.challenges
  pub sessions_set :
      after.sessions ≡ insert c.session_hash (session_row c d.session_at) before.sessions
  pub proofs_same : after.proofs ≡ before.proofs

module _ (lib : Library) (d : Draw) (c : Consumer) where
  -- What is known of an answer: where it accepts, the durable tables are `P`'s.
  abbrev IfTrue : (Tables → Type 0) → Tx × Option Bool → Type 0
  IfTrue P (s, some true) = P s.saved × P s.work
  IfTrue P o = Unit

  settle_true : (P : Tables → Type 0) (s : Tx) (k : Commit) → P s.work → IfTrue P (settle k s)
  settle_true P s Commit.committed p = (p, p)
  settle_true P s Commit.aborted p = tt
  settle_true P s Commit.lost p = tt

  open_session_true :
      (P : Tables → Type 0) (s : Tx)
      → ((w : Tables)
          → lookup c.session_hash s.work.sessions ≡ none
          → SameTables w (opened s.work c d.session_at)
          → P w)
      → IfTrue P (open_session lib d c s)
  open_session_true P s h =
      let audited =
        audit_auth lib d.request_id c.ref.user_id (codes "auth.login") (codes "authenticated")
          (opened s.work c d.session_at) in
      let end = λ (w : Tables). settle d.commits (record s { work = w }) in
      let done : Tx × Option Bool = match_some audited (s, none) end in
      some_cases (IfTrue P) (lookup c.session_hash s.work.sessions) done (λ row. (s, none))
        (λ none'.
          some_cases (IfTrue P) audited (s, none) end (λ e. tt)
            (λ w e.
              settle_true P (record s { work = w }) d.commits
                (h w none' (audit_auth-same _ _ _ _ _ _ w e))))
        (λ row e. tt)

  use_challenge-true :
      (P : Tables → Type 0) (s : Tx)
      → ((w : Tables) (ch : Challenge)
          → lookup c.challenge_hash s.work.challenges ≡ some ch
          → is_open ch d.challenge_at ≡ true
          → lookup c.session_hash s.work.sessions ≡ none
          → SameTables w (opened (used s.work c.challenge_hash ch) c d.session_at)
          → P w)
      → IfTrue P (use_challenge lib d c s)
  use_challenge-true P s h =
      some_cases (IfTrue P) (lookup c.challenge_hash s.work.challenges) (s, none) _ (λ e. tt)
        (λ ch e.
          if_cases (IfTrue P) (not (is_open ch d.challenge_at)) (λ i. tt)
            (λ i.
              open_session_true P (record s { work = used s.work c.challenge_hash ch })
                (λ w fresh same. h w ch e (ground arith) fresh same)))

  count_up_true :
      (s : Tx) (counter : ℕ)
      → IfTrue (λ w. Accepted d c s.work w counter) (count_up lib d c s c.ref counter)
  count_up_true s counter =
      let P : Tables → Type 0 = λ w. Accepted d c s.work w counter in
      some_cases (IfTrue P) (lookup c.ref.user_id s.work.credentials) (s, some false) _ (λ e. tt)
        (λ row found.
          if_cases (IfTrue P)
            (not (row.version == c.ref.version) || not (ltb_ℤ row.last_counter (pos counter)))
            (λ i. tt)
            (λ i.
              use_challenge-true P (record s { work = counted s.work c.ref.user_id row counter })
                (λ w ch e live fresh same. record {
                  row = row;
                  challenge = ch;
                  has_row = found;
                  has_challenge = e;
                  current = ground arith;
                  newer = ground arith;
                  live = live;
                  unconsumed = ground arith;
                  attempts_left = ground arith;
                  timely = (ground arith, ground arith);
                  fresh = fresh;
                  policy_same = same.0;
                  accounts_same = same.1;
                  credentials_set = same.2;
                  challenges_set = same.3;
                  sessions_set = same.4;
                  proofs_same = same.5;
                })))

  -- Where the consumer accepts, it was asked for its own credential.
  consume_true :
      (s : Tx) (ref : CredentialRef) (counter : ℕ)
      → IfTrue
          (λ w. (ref ≡ c.ref) × Accepted d c s.work w counter)
          (consume_counter lib d c s ref counter)
  unfolding consume_counter
  consume_true s ref counter =
      let P : CredentialRef → Tables → Type 0 =
        λ r w. (r ≡ c.ref) × Accepted d c s.work w counter in
      if_cases (IfTrue (P ref)) (not (same_ref ref c.ref) || ltb max_counter counter) (λ i. tt)
        (λ i.
          let e : c.ref ≡ ref = ground (arith, text_eq_iff ref.user_id c.ref.user_id) in
          subst (λ r. IfTrue (P r) (count_up lib d c s r counter)) e
            (with_ref (count_up lib d c s c.ref counter) (count_up_true s counter)))
    where
      with_ref :
          (o : Tx × Option Bool)
          → IfTrue (λ w. Accepted d c s.work w counter) o
          → IfTrue (λ w. (c.ref ≡ c.ref) × Accepted d c s.work w counter) o
      with_ref (t, some true) h = ((refl, h.0), (refl, h.1))
      with_ref (t, some false) h = tt
      with_ref (t, none) h = tt

  pub consume-Accepted :
      (s : Tx) (ref : CredentialRef) (counter : ℕ)
      → (consume_counter lib d c s ref counter).1 ≡ some true
      → (ref ≡ c.ref)
        × Accepted d c s.work (consume_counter lib d c s ref counter).0.saved counter
        × Accepted d c s.work (consume_counter lib d c s ref counter).0.work counter
  consume-Accepted s ref counter h =
      of_true (consume_counter lib d c s ref counter) h (consume_true s ref counter)
    where
      of_true :
          (o : Tx × Option Bool)
          → o.1 ≡ some true
          → IfTrue (λ w. (ref ≡ c.ref) × Accepted d c s.work w counter) o
          → (ref ≡ c.ref)
            × Accepted d c s.work o.0.saved counter
            × Accepted d c s.work o.0.work counter
      of_true (t, some true) e p = (p.0.0, p.0.1, p.1.1)
      of_true (t, some false) e p = absurd (cc)
      of_true (t, none) e p = absurd (cc)

-- The least counter that is accepted with a row for a version.
abbrev next_counter : ℤ → ℕ
next_counter (pos n) = suc n
next_counter (negsuc n) = 0

abbrev row_floor : ℕ → Option Credential → ℕ
row_floor version none = 0
row_floor version (some c) = if c.version == version then next_counter c.last_counter else 0

abbrev pub counter_floor : Tx → CredentialRef → ℕ
counter_floor s r = row_floor r.version (lookup r.user_id s.work.credentials)

next-newer :
    (last : ℤ) (counter : ℕ) → ltb_ℤ last (pos counter) ≡ true → next_counter last ≤ counter
next-newer (pos n) counter h = ground arith
next-newer (negsuc n) counter h = omega arith

-- The consumer of a login's counter is a store such as VerifyAndConsume documents: with the least
-- counter above the last one of the credential's row in its version, it refuses every counter below,
-- and one that it accepts is below afterwards.
pub consume_counter-IsStore :
    (lib : Library) (d : Draw) (c : Consumer)
    → IsStore lib.hmac_sha1 (consume_counter lib d c) counter_floor
consume_counter-IsStore lib d c = record {
  refuses = λ s r n below e.
      let (same, _, a) = consume-Accepted lib d c s r n e in refused s r n below same a;
  records = λ s r n e.
      let (same, _, a) = consume-Accepted lib d c s r n e in
      raised s (consume_counter lib d c s r n).0 r n same a;
}
  where
    refused :
        (s : Tx) (r : CredentialRef) (n : ℕ) {w : Tables}
        → n < counter_floor s r
        → r ≡ c.ref
        → Accepted d c s.work w n
        → ⊥
    refused s r n below same a =
        let floor : row_floor r.version (lookup r.user_id s.work.credentials)
            ≡ row_floor c.ref.version (some a.row) =
          rw (same, a.has_row) refl in
        let least = next-newer a.row.last_counter n a.newer in
        let current = a.current in absurd (ground arith)

    raised :
        (s t : Tx) (r : CredentialRef) (n : ℕ)
        → r ≡ c.ref
        → Accepted d c s.work t.work n
        → n < counter_floor t r
    raised s t r n same a =
        let set : lookup r.user_id t.work.credentials
            ≡ some (record a.row { last_counter = pos n }) =
          rw (same, a.credentials_set)
            (lookup-insert_self c.ref.user_id (record a.row { last_counter = pos n })
              s.work.credentials) in
        let current : a.row.version ≡ r.version = a.current ∙ sym (ap (λ x. x.version) same) in
        rw set (ground arith)
