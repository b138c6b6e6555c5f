-- ===== src/Auth/Store/Opened.antt =====
-- internal/adminauth/pgstore/store.go: what a successful CompleteTOTP had, and what it left.
use waiting_room.Base.{
  ℕ, ◌<◌, ◌≤◌, ◌≡◌, refl, sym, ap, subst, arith, true, false, not, ◌||◌, some, if_cases, some_cases,
  Text, lookup, Result, ok, err,
}
use waiting_room.Auth.Policy.{capabilities}
use waiting_room.Auth.Session.{AuthPolicy, validate, is_none}
use waiting_room.Auth.Totp.{Secret, TotpError, match_counter, verify_and_consume}
use waiting_room.Auth.OneUse.{verify_consumes}
use waiting_room.Auth.Store.{AccountRow, Credential, Challenge, Tables, Commit, Library, token_hash}
use waiting_room.Auth.Store.Login.{
  Grant, Draw, Tx, Consumer, Outcome, fails, settled, reject, concluded, ref_of, has_none,
  refused_challenge, check_code, of_user, complete_totp, consume_counter, unix,
}
use waiting_room.Auth.Store.Counters.{Accepted, consume-Accepted}

abbrev pub consumer_of :
    Text → AuthPolicy → AccountRow → Credential → Challenge → Text → Text → Consumer
consumer_of hash p a c ch session csrf = record {
  ref = ref_of ch.user_id c;
  challenge_hash = hash;
  session_hash = session;
  csrf_hash = csrf;
  policy = p.version;
  user_version = a.session_version;
}

-- The rows of a login that opens a session, the tests that they passed, and the tables it left.
pub record Opens (lib : Library) (d : Draw) (challenge code : Text) (before after : Tables)
    (grant : Grant) : Type 0 where
  pub hash : Text
  pub policy : AuthPolicy
  pub account : AccountRow
  pub credential : Credential
  pub row : Challenge
  pub secret : Secret
  pub counter : ℕ
  pub session_hash : Text
  pub csrf_hash : Text
  pub hashed : token_hash lib challenge ≡ some hash
  pub has_policy : before.policy ≡ some policy
  pub has_row : lookup hash before.challenges ≡ some row
  pub has_account : lookup row.user_id before.accounts ≡ some account
  pub has_credential : lookup row.user_id before.credentials ≡ some credential
  pub policy_valid : is_none (validate policy) ≡ true
  pub enforced : policy.totp_enabled ≡ true
  pub enabled : account.enabled ≡ true
  pub role : has_none (capabilities account.role) ≡ false
  pub live : refused_challenge policy account credential row d.now ≡ false
  pub unconsumed : row.consumed ≡ false
  pub attempts_left : row.attempts < 5
  pub current_versions :
      (row.credential_version ≡ credential.version)
      × (row.policy_version ≡ policy.version)
      × (row.user_version ≡ account.session_version)
  pub timely : (row.created_at ≤ d.now) × (d.now < row.expires_at)
  pub has_secret :
      lib.open_secret (ref_of row.user_id credential) credential.key_id credential.sealed_secret
      ≡ some secret
  pub matched : match_counter lib.hmac_sha1 secret code (unix d.now) ≡ some counter
  pub session_drawn : d.session_token ≡ some (grant.session, session_hash)
  pub csrf_drawn : d.csrf_token ≡ some (grant.csrf, csrf_hash)
  pub accepted :
      Accepted d
        (consumer_of hash policy account credential row session_hash csrf_hash)
        before
        after
        counter

-- What is known of a call's result: its property where it grants a session.
abbrev IfGrants : (Tables → Grant → Type 0) → Outcome → Type 0
IfGrants P (w, ok g) = P w g
IfGrants P (w, err e) = Unit

settled_grants :
    (P : Tables → Grant → Type 0) (k : Commit) (db w : Tables) → IfGrants P (settled k db w)
settled_grants P Commit.committed db w = tt
settled_grants P Commit.aborted db w = tt
settled_grants P Commit.lost db w = tt

reject_grants :
    (P : Tables → Grant → Type 0) (lib : Library) (d : Draw) (hash user : Text) (ch : Challenge)
    (s : Tx)
    → IfGrants P (reject lib d hash user ch s)
unfolding reject
reject_grants P lib d hash user ch s =
    some_cases (IfGrants P) _ (fails s.saved TotpError.auth_unavailable) _ (λ e. tt)
      (λ w e. settled_grants P d.commits s.saved w)

concluded_grants :
    (P : Tables → Grant → Type 0) (lib : Library) (d : Draw) (hash user : Text) (ch : Challenge)
    (g : Grant) (o : Tx × Result TotpError (Unit {0}))
    → (o.1 ≡ ok tt → P o.0.saved g)
    → IfGrants P (concluded lib d hash user ch g o)
concluded_grants P lib d hash user ch g (s, ok u) h = h refl
concluded_grants P lib d hash user ch g (s, err TotpError.auth_unavailable) h = tt
concluded_grants P lib d hash user ch g (s, err TotpError.invalid_or_replayed) h =
    reject_grants P lib d hash user ch s

module _ (lib : Library) (d : Draw) (challenge code : Text) (db : Tables) where
  check_code_grants :
      (hash : Text) (p : AuthPolicy) (a : AccountRow) (c : Credential) (ch : Challenge)
      → token_hash lib challenge ≡ some hash
      → db.policy ≡ some p
      → lookup hash db.challenges ≡ some ch
      → lookup ch.user_id db.accounts ≡ some a
      → lookup ch.user_id db.credentials ≡ some c
      → is_none (validate p) ≡ true
      → p.totp_enabled ≡ true
      → a.enabled ≡ true
      → has_none (capabilities a.role) ≡ false
      → IfGrants (Opens lib d challenge code db) (check_code lib d hash code p a c ch db)
  unfolding check_code
  check_code_grants hash p a c ch e1 e2 e3 e4 e5 v on en ro =
      let P = IfGrants (Opens lib d challenge code db) in
      if_cases P (refused_challenge p a c ch d.now) (λ i. tt)
        (λ live.
          some_cases P (lib.open_secret (ref_of ch.user_id c) c.key_id c.sealed_secret)
            (fails db TotpError.auth_unavailable) _ (λ e. tt)
            (λ secret e6.
              some_cases P d.session_token (fails db TotpError.auth_unavailable) _ (λ e. tt)
                (λ session e7.
                  some_cases P d.csrf_token (fails db TotpError.auth_unavailable) _ (λ e. tt)
                    (λ csrf e8.
                      let who = consumer_of hash p a c ch session.1 csrf.1 in
                      let start : Tx = record { saved = db; work = db } in
                      concluded_grants (Opens lib d challenge code db) lib d hash ch.user_id ch
                        (record { session = session.0; csrf = csrf.0 })
                        (verify_and_consume lib.hmac_sha1 (consume_counter lib d who) true
                          (ref_of ch.user_id c) secret code (unix d.now) start)
                        (λ okay.
                          let (n, m, t, same) =
                            verify_consumes lib.hmac_sha1 (consume_counter lib d who)
                              (ref_of ch.user_id c) secret code (unix d.now) start okay in
                          let (_, saved, _) =
                            consume-Accepted lib d who start (ref_of ch.user_id c) n t in
                          record {
                            hash = hash;
                            policy = p;
                            account = a;
                            credential = c;
                            row = ch;
                            secret = secret;
                            counter = n;
                            session_hash = session.1;
                            csrf_hash = csrf.1;
                            hashed = e1;
                            has_policy = e2;
                            has_row = e3;
                            has_account = e4;
                            has_credential = e5;
                            policy_valid = v;
                            enforced = on;
                            enabled = en;
                            role = ro;
                            live = live;
                            unconsumed = ground arith;
                            attempts_left = ground arith;
                            current_versions = (ground arith, ground arith, ground arith);
                            timely = (ground arith, ground arith);
                            has_secret = e6;
                            matched = m;
                            session_drawn = e7;
                            csrf_drawn = e8;
                            accepted =
                                subst (λ x. Accepted d who db x n)
                                  (sym (ap (λ (x : Tx). x.saved) same)) saved;
                          })))))

  complete_totp_grants :
      IfGrants (Opens lib d challenge code db) (complete_totp lib d challenge code db)
  unfolding complete_totp of_user
  complete_totp_grants =
      let P = IfGrants (Opens lib d challenge code db) in
      some_cases P (token_hash lib challenge) (fails db TotpError.invalid_or_replayed) _ (λ e. tt)
        (λ hash e1.
          some_cases P db.policy (fails db TotpError.auth_unavailable) _ (λ e. tt)
            (λ p e2.
              if_cases P (not (is_none (validate p))) (λ i. tt)
                (λ v.
                  if_cases P (not p.totp_enabled) (λ i. tt)
                    (λ on.
                      some_cases P (lookup hash db.challenges)
                        (fails db TotpError.invalid_or_replayed) _ (λ e. tt)
                        (λ ch e3.
                          some_cases P (lookup ch.user_id db.accounts)
                            (fails db TotpError.invalid_or_replayed) _ (λ e. tt)
                            (λ a e4.
                              if_cases P (not a.enabled || has_none (capabilities a.role)) (λ i. tt)
                                (λ r.
                                  some_cases P (lookup ch.user_id db.credentials)
                                    (fails db TotpError.invalid_or_replayed) _ (λ e. tt)
                                    (λ c e5.
                                      check_code_grants hash p a c ch e1 e2 e3 e4 e5 (ground arith)
                                        (ground arith) (ground arith) (ground arith)))))))))

-- A call of CompleteTOTP that grants a session found the challenge, its user's enabled account with a
-- capability and the credential, all of the versions that the challenge names and under a policy that
-- asks for the second factor, and a code of a counter in its window; the last counter of the
-- credential was lower and is now this counter, the challenge was open and is now consumed, and the
-- session is a new row; no other row but those of the audit changed.
pub complete_totp-Opens :
    (lib : Library) (d : Draw) (challenge code : Text) (before after : Tables) (grant : Grant)
    → complete_totp lib d challenge code before ≡ (after, ok grant)
    → Opens lib d challenge code before after grant
complete_totp-Opens lib d challenge code before after grant h =
    subst (IfGrants (Opens lib d challenge code before)) h
      (complete_totp_grants lib d challenge code before)
