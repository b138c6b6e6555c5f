-- ===== src/Auth/Store/Login.antt =====
-- internal/adminauth/pgstore/store.go: CompleteTOTP with the consumer of its counter.
use waiting_room.Base.{
  ℕ, ◌+◌, ◌/◌, Bool, true, false, not, ◌&&◌, ◌||◌, List, [], ◌∷◌, Option, none, some, ◌==◌, leb,
  ltb, if◌then◌else◌, Text, codes, text_eq, lookup, insert, match_some, Result, ok, err,
}
use waiting_room.Base.Int.{ℤ, pos, difference, ltb_ℤ}
use waiting_room.Auth.Policy.{Capability, capabilities}
use waiting_room.Auth.Session.{AuthPolicy, validate, is_none}
use waiting_room.Auth.Totp.{CredentialRef, TotpError, verify_and_consume}
use waiting_room.Auth.Store.{
  AccountRow, Credential, Challenge, SessionRow, Tables, Commit, Library, token_hash, audit_auth,
}

pub record Grant : Type 0 where
  pub session : Text
  pub csrf : Text

-- What a call draws and reads: two tokens with their hashes, an identifier for the audit, the clock
-- behind the locks, at the challenge's write and at the session's, and the outcome of its commit.
pub record Draw : Type 0 where
  pub session_token : Option (Text × Text)
  pub csrf_token : Option (Text × Text)
  pub request_id : Bool
  pub now : ℕ
  pub challenge_at : ℕ
  pub session_at : ℕ
  pub commits : Commit

-- A transaction: the durable tables, and its own.
pub record Tx : Type 0 where
  pub saved : Tables
  pub work : Tables

-- 1970 in seconds of Go's zero time.
abbrev unix_epoch : ℕ
unix_epoch = 62135596800

abbrev pub unix : ℕ → ℤ
unix t = difference (t / 1000000000) unix_epoch

abbrev pub max_attempts : ℕ
max_attempts = 5

-- 2^63 - 1
abbrev pub max_counter : ℕ
max_counter = 9223372036854775807

-- The condition of the update that consumes a challenge.
abbrev pub is_open : Challenge → ℕ → Bool
is_open ch at =
    not ch.consumed && ltb ch.attempts max_attempts && leb ch.created_at at && ltb at ch.expires_at

abbrev pub settle : Commit → Tx → Tx × Option Bool
settle Commit.committed s = (record { saved = s.work; work = s.work }, some true)
settle Commit.aborted s = (s, none)
settle Commit.lost s = (record { saved = s.work; work = s.work }, none)

-- loginConsumer's fields but the transaction.
pub record Consumer : Type 0 where
  pub ref : CredentialRef
  pub challenge_hash : Text
  pub session_hash : Text
  pub csrf_hash : Text
  pub policy : ℕ
  pub user_version : ℕ

abbrev pub same_ref : CredentialRef → CredentialRef → Bool
same_ref a b = text_eq a.user_id b.user_id && a.version == b.version

-- The tables with the counter.
abbrev pub counted : Tables → Text → Credential → ℕ → Tables
counted db user c counter = record db {
  credentials = insert user (record c { last_counter = pos counter }) db.credentials;
}

abbrev pub used : Tables → Text → Challenge → Tables
used db hash ch = record db {
  challenges = insert hash (record ch { consumed = true }) db.challenges;
}

abbrev pub session_row : Consumer → ℕ → SessionRow
session_row c at = record {
  csrf_hash = c.csrf_hash;
  user_id = c.ref.user_id;
  policy_version = c.policy;
  user_version = c.user_version;
  mfa_verified = true;
  created_at = at;
  last_seen_at = at;
}

abbrev pub opened : Tables → Consumer → ℕ → Tables
opened db c at = record db { sessions = insert c.session_hash (session_row c at) db.sessions }

-- The insert of the session, whose hash is a key, the audit and the commit.
abbrev pub open_session : Library → Draw → Consumer → Tx → Tx × Option Bool
open_session lib d c s =
    match_some (lookup c.session_hash s.work.sessions)
      (match_some
        (audit_auth lib d.request_id c.ref.user_id (codes "auth.login") (codes "authenticated")
          (opened s.work c d.session_at))
        (s, none) (λ w. settle d.commits (record s { work = w })))
      (λ row. (s, none))

-- The update of the challenge.
abbrev pub use_challenge : Library → Draw → Consumer → Tx → Tx × Option Bool
use_challenge lib d c s =
    match_some (lookup c.challenge_hash s.work.challenges) (s, none)
      (λ ch.
        if not (is_open ch d.challenge_at)
        then (s, none)
        else open_session lib d c (record s { work = used s.work c.challenge_hash ch }))

-- The update of the counter.
abbrev pub count_up : Library → Draw → Consumer → Tx → CredentialRef → ℕ → Tx × Option Bool
count_up lib d c s ref counter =
    match_some (lookup ref.user_id s.work.credentials) (s, some false)
      (λ row.
        if not (row.version == ref.version) || not (ltb_ℤ row.last_counter (pos counter))
        then (s, some false)
        else use_challenge lib d c (record s { work = counted s.work ref.user_id row counter }))

unfoldable pub consume_counter :
    Library → Draw → Consumer → Tx → CredentialRef → ℕ → Tx × Option Bool
consume_counter lib d c s ref counter =
    if not (same_ref ref c.ref) || ltb max_counter counter
    then (s, some false)
    else count_up lib d c s ref counter

abbrev pub Outcome : Type 0
Outcome = Tables × Result TotpError Grant

abbrev pub fails : Tables → TotpError → Outcome
fails db e = (db, err e)

-- The durable tables of a rejection, which counts an attempt.
abbrev pub settled : Commit → Tables → Tables → Outcome
settled Commit.committed db w = fails w TotpError.invalid_or_replayed
settled Commit.aborted db w = fails db TotpError.auth_unavailable
settled Commit.lost db w = fails w TotpError.auth_unavailable

abbrev pub tried : Tables → Text → Challenge → Tables
tried db hash ch = record db {
  challenges =
      insert hash
        (record ch { attempts = ch.attempts + 1; consumed = leb max_attempts (ch.attempts + 1) })
        db.challenges;
}

-- The row is locked since it was read; `attempts` is the count that was read.
unfoldable pub reject : Library → Draw → Text → Text → Challenge → Tx → Outcome
reject lib d hash user ch s =
    let locked = leb max_attempts (ch.attempts + 1) in
    match_some
      (audit_auth lib d.request_id user
        (if locked then codes "auth.lockout" else codes "auth.login")
        (if locked then codes "locked" else codes "rejected") (tried s.work hash ch))
      (fails s.saved TotpError.auth_unavailable) (λ w. settled d.commits s.saved w)

-- What follows VerifyAndConsume.
abbrev pub concluded :
    Library → Draw → Text → Text → Challenge → Grant → Tx × Result TotpError (Unit {0}) → Outcome
concluded lib d hash user ch grant (s, ok u) = (s.saved, ok grant)
concluded lib d hash user ch grant (s, err TotpError.auth_unavailable) =
    fails s.saved TotpError.auth_unavailable
concluded lib d hash user ch grant (s, err TotpError.invalid_or_replayed) =
    reject lib d hash user ch s

abbrev pub ref_of : Text → Credential → CredentialRef
ref_of user c = record { user_id = user; version = c.version }

abbrev pub has_none : List Capability → Bool
has_none [] = true
has_none (c ∷ cs) = false

-- The test of the challenge behind the locks.
abbrev pub refused_challenge : AuthPolicy → AccountRow → Credential → Challenge → ℕ → Bool
refused_challenge p a c ch now =
    not (ch.credential_version == c.version)
    || not (ch.policy_version == p.version)
    || not (ch.user_version == a.session_version)
    || ch.consumed
    || leb max_attempts ch.attempts
    || ltb now ch.created_at
    || not (ltb now ch.expires_at)

-- With the rows that are read: the secret, the tokens and the code.
unfoldable pub check_code :
    Library
    → Draw
    → Text
    → Text
    → AuthPolicy
    → AccountRow
    → Credential
    → Challenge
    → Tables
    → Outcome
check_code lib d hash code p a c ch db =
    if refused_challenge p a c ch d.now
    then fails db TotpError.invalid_or_replayed
    else match_some (lib.open_secret (ref_of ch.user_id c) c.key_id c.sealed_secret)
        (fails db TotpError.auth_unavailable)
        (λ secret. match_some d.session_token (fails db TotpError.auth_unavailable) (λ session.
          match_some d.csrf_token (fails db TotpError.auth_unavailable) (λ csrf.
            concluded lib d hash ch.user_id ch (record { session = session.0; csrf = csrf.0 })
              (verify_and_consume lib.hmac_sha1
                (consume_counter lib d (record {
                  ref = ref_of ch.user_id c;
                  challenge_hash = hash;
                  session_hash = session.1;
                  csrf_hash = csrf.1;
                  policy = p.version;
                  user_version = a.session_version;
                }))
                true (ref_of ch.user_id c) secret code (unix d.now)
                (record { saved = db; work = db })))))

-- The rows of the user, whose challenge is read twice, the second time under a lock.
unfoldable pub of_user : Library → Draw → Text → Text → AuthPolicy → Challenge → Tables → Outcome
of_user lib d hash code p ch db =
    match_some (lookup ch.user_id db.accounts) (fails db TotpError.invalid_or_replayed) (λ a.
      if not a.enabled || has_none (capabilities a.role)
      then fails db TotpError.invalid_or_replayed
      else match_some (lookup ch.user_id db.credentials) (fails db TotpError.invalid_or_replayed)
          (λ c. check_code lib d hash code p a c ch db))

unfoldable pub complete_totp : Library → Draw → Text → Text → Tables → Outcome
complete_totp lib d challenge code db =
    match_some (token_hash lib challenge) (fails db TotpError.invalid_or_replayed) (λ hash.
      match_some db.policy (fails db TotpError.auth_unavailable) (λ p.
        if not (is_none (validate p))
        then fails db TotpError.auth_unavailable
        else if not p.totp_enabled
        then fails db TotpError.invalid_or_replayed
        else match_some (lookup hash db.challenges) (fails db TotpError.invalid_or_replayed)
            (λ ch. of_user lib d hash code p ch db)))
