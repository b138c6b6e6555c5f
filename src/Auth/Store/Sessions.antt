-- ===== src/Auth/Store/Sessions.antt =====
-- internal/adminauth/pgstore/sessions.go: the load of a session, and Me, Touch and Logout.
use waiting_room.Base.{
  ℕ, ◌+◌, Bool, true, false, not, ◌&&◌, List, Option, none, some, ◌==◌, leb, ltb, if◌then◌else◌,
  Text, codes, text_eq, length, lookup, insert, keep, match_some, Result, ok, err,
}
use waiting_room.Auth.Policy.{Role, Capability, capabilities}
use waiting_room.Auth.Session
use waiting_room.Auth.Session.{
  AuthPolicy, Account, validate, is_none, check_session, session_idle_ttl, session_absolute_ttl,
}
use waiting_room.Auth.Csrf.{Request, check_mutation}
use waiting_room.Auth.Store.{
  AccountRow, SessionRow, Tables, Commit, Library, token_hash, audit_auth,
}

-- The package's errors as this file returns them.
pub data Error : Type 0 where
  denied : Session.Error → Error
  unavailable : Error

abbrev pub unauthenticated : Error
unauthenticated = Error.denied Session.Error.unauthenticated

abbrev pub forbidden : Error
forbidden = Error.denied Session.Error.forbidden

pub record Snapshot : Type 0 where
  pub account : Account
  pub session : Session.Session
  pub policy : AuthPolicy
  pub csrf : Text
  pub now : ℕ

pub record SessionView : Type 0 where
  pub user_id : Text
  pub role : Role
  pub mfa_verified : Bool
  pub totp_enrolled : Bool
  pub capability_version : ℕ
  pub capabilities : List Capability
  pub created_at : ℕ
  pub last_seen_at : ℕ
  pub idle_expires_at : ℕ
  pub absolute_expires_at : ℕ

abbrev pub capability_version : ℕ
capability_version = 1

unfoldable pub view : Snapshot → SessionView
view s =
    let absolute = s.session.created_at + session_absolute_ttl in
    let idle = s.session.last_seen_at + session_idle_ttl in
    record {
      user_id = s.account.id;
      role = s.account.role;
      mfa_verified = s.session.mfa_verified;
      totp_enrolled = s.account.totp_enrolled;
      capability_version = capability_version;
      capabilities = capabilities s.account.role;
      created_at = s.session.created_at;
      last_seen_at = s.session.last_seen_at;
      idle_expires_at = if ltb absolute idle then absolute else idle;
      absolute_expires_at = absolute;
    }

abbrev pub account_of : Text → AccountRow → Bool → Account
account_of user a enrolled = record {
  id = user;
  role = a.role;
  enabled = a.enabled;
  session_version = a.session_version;
  totp_enrolled = enrolled;
}

abbrev pub session_of : SessionRow → Session.Session
session_of r = record {
  user_id = r.user_id;
  auth_policy_version = r.policy_version;
  user_session_version = r.user_version;
  mfa_verified = r.mfa_verified;
  created_at = r.created_at;
  last_seen_at = r.last_seen_at;
}

-- The result of CheckSession.
abbrev pub checked : Snapshot → Option Session.Error → Result Error Snapshot
checked s none = ok s
checked s (some e) = err (Error.denied e)

unfoldable pub load_session : Tables → Text → ℕ → Result Error Snapshot
load_session db hash now = match_some db.policy (err Error.unavailable) (λ p.
    if not (is_none (validate p))
    then err Error.unavailable
    else match_some (lookup hash db.sessions) (err unauthenticated) (λ row.
      match_some (lookup row.user_id db.accounts) (err unauthenticated) (λ a.
        if not (length row.csrf_hash == 32)
        then err Error.unavailable
        else let account =
            account_of row.user_id a (not (is_none (lookup row.user_id db.credentials))) in
          checked
            (record {
              account = account;
              session = session_of row;
              policy = p;
              csrf = row.csrf_hash;
              now = now;
            })
            (check_session account (session_of row) p now))))

pub data Operation : Type 0 where
  read touch logout : Operation

abbrev pub mutates : Operation → Bool
mutates read = false
mutates _ = true

-- A commit's durable tables and the answer.
abbrev pub commit : Commit → Tables → Tables → SessionView → Tables × Result Error SessionView
commit Commit.committed db w v = (w, ok v)
commit Commit.aborted db w v = (db, err Error.unavailable)
commit Commit.lost db w v = (w, err Error.unavailable)

-- The condition of the update of the last activity.
abbrev pub may_touch : SessionRow → ℕ → Bool
may_touch r at =
    leb r.created_at at
    && leb r.last_seen_at at
    && ltb at (r.created_at + session_absolute_ttl)
    && ltb at (r.last_seen_at + session_idle_ttl)

abbrev pub touched : Tables → Text → SessionRow → ℕ → Tables
touched db hash r at = record db {
  sessions = insert hash (record r { last_seen_at = at }) db.sessions;
}

-- The sessions without one, and the proofs without its own: the foreign key cascades.
abbrev pub forgotten : Tables → Text → Tables
forgotten db hash = record db {
  sessions = keep (λ e. not (text_eq e.0 hash)) db.sessions;
  proofs = keep (λ e. not (text_eq e.1.session_hash hash)) db.proofs;
}

module _ (lib : Library) (origin : Text) (drawn : Bool) (touch_at : ℕ) (commits : Commit) where
  -- The work of an operation that may go on.
  unfoldable pub operate : Operation → Text → Snapshot → Tables → Tables × Result Error SessionView
  operate read hash s db = commit commits db db (view s)
  operate logout hash s db =
      match_some
        (audit_auth lib drawn s.account.id (codes "auth.logout") (codes "logged_out")
          (forgotten db hash))
        (db, err Error.unavailable) (λ w. commit commits db w (view s))
  operate touch hash s db =
      match_some (lookup hash db.sessions) (db, err unauthenticated)
        (λ row.
          if not (may_touch row touch_at)
          then (db, err unauthenticated)
          else commit commits db (touched db hash row touch_at)
              (view (record s { session = record s.session { last_seen_at = touch_at } })))

  abbrev pub is_post : Option Request → Bool
  is_post none = false
  is_post (some r) = text_eq r.method (codes "POST")

  -- CheckMutation for an operation that changes state.
  abbrev pub admitted : Operation → Option Request → Text → Option Session.Error
  admitted read r csrf = none
  admitted _ none csrf = some Session.Error.forbidden
  admitted _ (some r) csrf = check_mutation lib.decode lib.sha256 origin r csrf

  abbrev pub permit :
      Operation
      → Text
      → Snapshot
      → Tables
      → Option Session.Error
      → Tables × Result Error SessionView
  permit op hash s db (some e) = (db, err (Error.denied e))
  permit op hash s db none = operate op hash s db

  -- With the session's load.
  abbrev pub authorized :
      Operation
      → Option Request
      → Text
      → Tables
      → Result Error Snapshot
      → Tables × Result Error SessionView
  authorized op request hash db (err e) = (db, err e)
  authorized op request hash db (ok s) = permit op hash s db (admitted op request s.csrf)

  unfoldable pub run :
      Text → Option Request → Operation → ℕ → Tables → Tables × Result Error SessionView
  run token request op now db =
      match_some (token_hash lib token) (db, err unauthenticated)
        (λ hash.
          if mutates op && not (is_post request)
          then (db, err forbidden)
          else authorized op request hash db (load_session db hash now))
