-- ===== src/Auth/Store/LoginFrame.antt =====
-- internal/adminauth/pgstore/store.go: what a login keeps of the tables.
use waiting_room.Base.{
  ℕ, ◌≡◌, refl, sym, subst, arith, Bool, true, false, not, ◌||◌, Option, none, some, ◌==◌, ltb,
  if_cases, some_cases, Text, codes, lookup, match_some, Result, ok, err,
}
use waiting_room.Base.Int.{ℤ, pos, ltb_ℤ}
use waiting_room.Auth.Policy.{capabilities}
use waiting_room.Auth.Session.{validate, is_none}
use waiting_room.Auth.Totp.{
  CredentialRef, Secret, TotpError, valid_ref, match_counter, verify_and_consume, attempt, answered,
}
use waiting_room.Auth.Store.{Credential, Challenge, Tables, Commit, Library, token_hash, audit_auth}
use waiting_room.Auth.Store.Login.{
  Grant, Draw, Tx, Consumer, Outcome, fails, settle, settled, tried, used, counted, opened,
  open_session, reject, concluded, ref_of, has_none, same_ref, max_counter, refused_challenge,
  check_code, of_user, complete_totp, consume_counter, unix, is_open,
}
use waiting_room.Auth.Store.Counters.{SameTables, audit_auth-same}
use waiting_room.Auth.Store.Opened.{consumer_of}

-- A property of tables that no write of a login ends.
pub record IsStable (P : Tables → Type 0) : Type 0 where
  pub by_audit : {a w : Tables} → SameTables w a → P a → P w
  pub by_count :
      {a : Tables} (user : Text) (row : Credential) (n : ℕ) → P a → P (counted a user row n)
  pub by_use : {a : Tables} (hash : Text) (ch : Challenge) → P a → P (used a hash ch)
  pub by_opening : {a : Tables} (c : Consumer) (at : ℕ) → P a → P (opened a c at)
  pub by_try :
      {a : Tables} (hash : Text) (ch : Challenge)
      → lookup hash a.challenges ≡ some ch
      → ch.consumed ≡ false
      → P a
      → P (tried a hash ch)

module _ {P : Tables → Type 0} (stable : IsStable P) (lib : Library) (d : Draw) where
  -- An answer of the consumer: a refusal leaves the transaction, any other keeps the challenge consumed
  -- in the durable tables.
  abbrev pub Answers : Tx → Tx × Option Bool → Type 0
  Answers s (t, some false) = t ≡ s
  Answers s (t, _) = P t.saved

  pub settle-Answers :
      (start s : Tx) (k : Commit) → P s.saved → P s.work → Answers start (settle k s)
  settle-Answers start s Commit.committed p q = q
  settle-Answers start s Commit.aborted p q = p
  settle-Answers start s Commit.lost p q = q

  pub open_session-Answers :
      (c : Consumer) (start s : Tx) → P s.saved → P s.work → Answers start (open_session lib d c s)
  open_session-Answers c start s p q =
      let audited =
        audit_auth lib d.request_id c.ref.user_id (codes "auth.login") (codes "authenticated")
          (opened s.work c d.session_at) in
      let end = λ (w : Tables). settle d.commits (record s { work = w }) in
      let done : Tx × Option Bool = match_some audited (s, none) end in
      some_cases (Answers start) (lookup c.session_hash s.work.sessions) done (λ row. (s, none))
        (λ none'.
          some_cases (Answers start) audited (s, none) end (λ e. p)
            (λ w e.
              settle-Answers start (record s { work = w }) d.commits p
                (stable.by_audit (audit_auth-same _ _ _ _ _ _ w e)
                  (stable.by_opening c d.session_at q))))
        (λ row e. p)

  pub consume-Answers :
      (c : Consumer) (s : Tx) (ref : CredentialRef) (counter : ℕ)
      → P s.saved
      → P s.work
      → Answers s (consume_counter lib d c s ref counter)
  unfolding consume_counter
  consume-Answers c s ref counter p q =
      let Q = Answers s in
      if_cases Q (not (same_ref ref c.ref) || ltb max_counter counter) (λ i. refl)
        (λ i.
          some_cases Q (lookup ref.user_id s.work.credentials) (s, some false) _ (λ e. refl)
            (λ row e.
              if_cases Q
                (not (row.version == ref.version) || not (ltb_ℤ row.last_counter (pos counter)))
                (λ j. refl)
                (λ j.
                  let t : Tx = record s { work = counted s.work ref.user_id row counter } in
                  some_cases Q (lookup c.challenge_hash s.work.challenges) (t, none) _ (λ e. p)
                    (λ ch found.
                      if_cases Q (not (is_open ch d.challenge_at)) (λ k. p)
                        (λ k.
                          open_session-Answers c s
                            (record t { work = used t.work c.challenge_hash ch }) p
                            (stable.by_use c.challenge_hash ch
                              (stable.by_count ref.user_id row counter q)))))))

  -- What is known behind VerifyAndConsume.
  abbrev pub Verified : Tx → Tx × Result TotpError (Unit {0}) → Type 0
  Verified s (t, ok u) = P t.saved
  Verified s (t, err TotpError.auth_unavailable) = P t.saved
  Verified s (t, err TotpError.invalid_or_replayed) = t ≡ s

  pub answered-Verified :
      (c : Consumer) (s : Tx) (o : Tx × Option Bool)
      → Answers s o
      → Verified s (answered lib.hmac_sha1 (consume_counter lib d c) o)
  answered-Verified c s (t, none) p = p
  answered-Verified c s (t, some true) p = p
  answered-Verified c s (t, some false) p = p

  pub attempt-Verified :
      (c : Consumer) (s : Tx) (ref : CredentialRef) (o : Option ℕ)
      → P s.saved
      → P s.work
      → Verified s (attempt lib.hmac_sha1 (consume_counter lib d c) ref o s)
  attempt-Verified c s ref none p q = refl
  attempt-Verified c s ref (some counter) p q =
      answered-Verified c s (consume_counter lib d c s ref counter)
        (consume-Answers c s ref counter p q)

  pub verify-Verified :
      (c : Consumer) (s : Tx) (ref : CredentialRef) (secret : Secret) (code : Text) (now : ℤ)
      → P s.saved
      → P s.work
      → Verified s
          (verify_and_consume lib.hmac_sha1 (consume_counter lib d c) true ref secret code now s)
  unfolding verify_and_consume
  verify-Verified c s ref secret code now p q =
      if_cases (Verified s) (not (valid_ref ref)) (λ i. refl)
        (λ i. attempt-Verified c s ref (match_counter lib.hmac_sha1 secret code now) p q)

  abbrev pub Keeps : Outcome → Type 0
  Keeps o = P o.0

  pub settled-Keeps : (k : Commit) (db w : Tables) → P db → P w → Keeps (settled k db w)
  settled-Keeps Commit.committed db w p q = q
  settled-Keeps Commit.aborted db w p q = p
  settled-Keeps Commit.lost db w p q = q

  -- A rejection writes a challenge that was not consumed, so another one.
  pub reject-Keeps :
      (hash user : Text) (ch : Challenge) (s : Tx)
      → lookup hash s.work.challenges ≡ some ch
      → ch.consumed ≡ false
      → P s.saved
      → P s.work
      → Keeps (reject lib d hash user ch s)
  unfolding reject
  reject-Keeps hash user ch s found open' p q =
      some_cases Keeps _ (fails s.saved TotpError.auth_unavailable) _ (λ e. p)
        (λ w e.
          settled-Keeps d.commits s.saved w p (
            stable.by_audit (audit_auth-same _ _ _ _ _ _ w e)
              (stable.by_try hash ch found open' q)))

  pub concluded-Keeps :
      (hash user : Text) (ch : Challenge) (g : Grant) (s : Tx)
      (o : Tx × Result TotpError (Unit {0}))
      → lookup hash s.work.challenges ≡ some ch
      → ch.consumed ≡ false
      → P s.saved
      → P s.work
      → Verified s o
      → Keeps (concluded lib d hash user ch g o)
  concluded-Keeps hash user ch g s (t, ok u) found open' p q v = v
  concluded-Keeps hash user ch g s (t, err TotpError.auth_unavailable) found open' p q v = v
  concluded-Keeps hash user ch g s (t, err TotpError.invalid_or_replayed) found open' p q v =
      subst (λ x. Keeps (reject lib d hash user ch x)) (sym v)
        (reject-Keeps hash user ch s found open' p q)

  pub complete_totp_keeps :
      (challenge code : Text) (db : Tables) → P db → P (complete_totp lib d challenge code db).0
  unfolding complete_totp of_user check_code
  complete_totp_keeps challenge code db p =
      some_cases Keeps (token_hash lib challenge) (fails db TotpError.invalid_or_replayed) _
        (λ e. p)
        (λ hash e1.
          some_cases Keeps db.policy (fails db TotpError.auth_unavailable) _ (λ e. p)
            (λ r e2.
              if_cases Keeps (not (is_none (validate r))) (λ i. p)
                (λ v.
                  if_cases Keeps (not r.totp_enabled) (λ i. p)
                    (λ on.
                      some_cases Keeps (lookup hash db.challenges)
                        (fails db TotpError.invalid_or_replayed) _ (λ e. p)
                        (λ ch e3.
                          some_cases Keeps (lookup ch.user_id db.accounts)
                            (fails db TotpError.invalid_or_replayed) _ (λ e. p)
                            (λ a e4.
                              if_cases Keeps (not a.enabled || has_none (capabilities a.role))
                                (λ i. p)
                                (λ i.
                                  some_cases Keeps (lookup ch.user_id db.credentials)
                                    (fails db TotpError.invalid_or_replayed) _ (λ e. p)
                                    (λ c e5.
                                      if_cases Keeps (refused_challenge r a c ch d.now) (λ i. p)
                                        (λ live.
                                          some_cases Keeps
                                            (lib.open_secret (ref_of ch.user_id c) c.key_id
                                              c.sealed_secret)
                                            (fails db TotpError.auth_unavailable) _ (λ e. p)
                                            (λ secret e6.
                                              some_cases Keeps d.session_token
                                                (fails db TotpError.auth_unavailable) _ (λ e. p)
                                                (λ session e7.
                                                  some_cases Keeps d.csrf_token
                                                    (fails db TotpError.auth_unavailable) _ (λ e. p)
                                                    (λ csrf e8.
                                                      let start : Tx = record {
                                                        saved = db;
                                                        work = db;
                                                      } in
                                                      concluded-Keeps hash ch.user_id ch
                                                        (record {
                                                          session = session.0;
                                                          csrf = csrf.0;
                                                        })
                                                        start _ e3 (ground arith) p p
                                                        (verify-Verified
                                                          (consumer_of hash r a c ch session.1
                                                            csrf.1)
                                                          start (ref_of ch.user_id c) secret code
                                                          (unix d.now) p p)))))))))))))
