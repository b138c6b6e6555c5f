-- ===== src/Auth/Store/Access.antt =====
-- internal/adminauth/pgstore: the session that a login opens.
use waiting_room.Base.{
  ℕ, ◌+◌, ◌<◌, ◌≤◌, ◌≡◌, ◌≢◌, inr, refl, ap, ◌∙◌, arith, true, false, [], Option, none, some, Text,
  length, lookup, lookup-insert_self, ok,
}
use waiting_room.Auth.Policy.{Role, unknown, capabilities, capabilities_in, rules, requirement}
use waiting_room.Auth.Session
use waiting_room.Base.Int.{pos}
use waiting_room.Auth.Session.{
  AuthPolicy, Account, validate, is_none, check_session, session_idle_ttl, session_absolute_ttl,
}
use waiting_room.Auth.Validity.{IsValidPolicy, Holds, validate-none, check_session-Holds}
use waiting_room.Auth.Store.{
  AccountRow, Credential, Challenge, SessionRow, Tables, Library, token_hash,
}
use waiting_room.Auth.Store.Login.{Grant, Draw, complete_totp, session_row, has_none}
use waiting_room.Auth.Store.Opened.{consumer_of, complete_totp-Opens}
use waiting_room.Auth.Store.Sessions.{Snapshot, account_of, session_of, load_session}

load_session_lem :
    (db : Tables) (hash : Text) (now : ℕ) (p : AuthPolicy) (row : SessionRow) (a : AccountRow)
    (c : Credential)
    → db.policy ≡ some p
    → is_none (validate p) ≡ true
    → lookup hash db.sessions ≡ some row
    → lookup row.user_id db.accounts ≡ some a
    → lookup row.user_id db.credentials ≡ some c
    → length row.csrf_hash ≡ 32
    → Holds (account_of row.user_id a true) (session_of row) p now
    → load_session db hash now
      ≡ ok (record {
        account = account_of row.user_id a true;
        session = session_of row;
        policy = p;
        csrf = row.csrf_hash;
        now = now;
      })
unfolding load_session
load_session_lem db hash now p row a c e1 v e2 e3 e4 l h =
    let fine = (check_session-Holds (account_of row.user_id a true) (session_of row) p now).0.1 h in
    rw (e1, v, e2, e3, e4, l, fine) refl

has_role : (r : Role) → has_none (capabilities r) ≡ false → r ≢ unknown
unfolding capabilities capabilities_in rules requirement
has_role r h e = absurd (cc (ap (λ x. has_none (capabilities x)) e, h))

valid_policy : (p : AuthPolicy) → is_none (validate p) ≡ true → IsValidPolicy p
valid_policy p v = (validate-none p).0 (nothing (validate p) v)
  where
    nothing : (o : Option Session.Error) → is_none o ≡ true → o ≡ none
    nothing none h = refl
    nothing (some e) h = absurd (cc)

-- What a login's session is loaded as.
abbrev pub opened_as : Text → AccountRow → AuthPolicy → ℕ → ℕ → Text → Snapshot
opened_as user a p at now csrf = record {
  account = account_of user a true;
  session = record {
    user_id = user;
    auth_policy_version = p.version;
    user_session_version = a.session_version;
    mfa_verified = true;
    created_at = at;
    last_seen_at = at;
  };
  policy = p;
  csrf = csrf;
  now = now;
}

-- Where the rows of the accounts have an identifier and a version above 0, and a CSRF token's hash has
-- 32 bytes, the session that a login opened is loaded, in the tables that the login left, for half an
-- hour from its opening by the hash drawn with the granted token: as a session of the user in the
-- challenge's row with the second factor verified, under the account and the policy that the login found.
pub login_opens_session :
    (lib : Library) (d : Draw) (challenge code : Text) (before after : Tables) (g : Grant) (now : ℕ)
    → complete_totp lib d challenge code before ≡ (after, ok g)
    → ((user : Text) (a : AccountRow)
        → lookup user before.accounts ≡ some a
        → (user ≢ []) × (a.session_version ≢ 0))
    → ((t hash : Text) → d.csrf_token ≡ some (t, hash) → length hash ≡ 32)
    → d.session_at ≢ 0
    → d.session_at ≤ now
    → now < d.session_at + session_idle_ttl
    → (login : Text) × (ch : Challenge) × (hash : Text) × (a : AccountRow) × (p : AuthPolicy)
      × (csrf : Text) × (token_hash lib challenge ≡ some login)
      × (lookup login before.challenges ≡ some ch)
      × (d.session_token ≡ some (g.session, hash))
      × (lookup ch.user_id before.accounts ≡ some a)
      × (before.policy ≡ some p)
      × (load_session after hash now ≡ ok (opened_as ch.user_id a p d.session_at now csrf))
login_opens_session lib d challenge code before after g now h rows csrf made from until =
    let o = complete_totp-Opens lib d challenge code before after g h in
    let user = o.row.user_id in
    let who = consumer_of o.hash o.policy o.account o.credential o.row o.session_hash o.csrf_hash in
    let row = session_row who d.session_at in
    let (named, versioned) = rows user o.account o.has_account in
    let counted = record o.accepted.row { last_counter = pos o.counter } in
    let holds : Holds (account_of user o.account true) (session_of row) o.policy now = record {
      policy = valid_policy o.policy o.policy_valid;
      named = named;
      enabled = o.enabled;
      role = has_role o.account.role o.role;
      own = refl;
      under_policy = refl;
      unrevoked = refl;
      revocable = versioned;
      created = made;
      ordered = omega arith;
      seen = from;
      young = omega arith;
      active = until;
      factor = inr (refl, refl);
    } in
    (
      o.hash,
      o.row,
      o.session_hash,
      o.account,
      o.policy,
      o.csrf_hash,
      o.hashed,
      o.has_row,
      o.session_drawn,
      o.has_account,
      o.has_policy,
      load_session_lem after o.session_hash now o.policy row o.account counted
          (o.accepted.policy_same ∙ o.has_policy) o.policy_valid
          (ap (lookup o.session_hash) o.accepted.sessions_set
            ∙ lookup-insert_self o.session_hash row before.sessions)
          (ap (lookup user) o.accepted.accounts_same ∙ o.has_account)
          (ap (lookup user) o.accepted.credentials_set
            ∙ lookup-insert_self user counted before.credentials)
          (csrf g.csrf o.csrf_hash o.csrf_drawn) holds,
    )
