-- ===== src/Examples/Logins.antt =====
-- internal/adminauth/pgstore: a login, its session and a proof, with a toy hash and a toy HMAC.
use waiting_room.Base.{
  ℕ, ◌≡◌, ◌≢◌, ◌+◌, inl, inr, subst, Bool-cases, refl, arith, true, false, [], ◌∷◌, some, Text,
  codes, text_eq, all, any, take, drop, keep, length, lookup, insert, decimal, digits_onto, Result,
  ok,
}
use waiting_room.Base.Int.{pos}
use waiting_room.Auth.Policy
use waiting_room.Auth.Policy.{Role, capabilities, capabilities_in, rules, requirement, role_bit}
use waiting_room.Auth.Session.{AuthPolicy, PolicyMode, validate, check_session}
use waiting_room.Auth.Totp.{
  valid_ref, big_endian, bytes_of, zeros, padded, latest, hotp, match_counter, verify_and_consume,
}
use waiting_room.Auth.OneUse.{IsStore}
use waiting_room.Auth.Csrf.{Request, check_mutation}
use waiting_room.Auth.Store.{
  AccountRow, Challenge, Proof, Tables, Commit, Library, token_hash, audit_auth,
}
use waiting_room.Auth.Store.Login.{Grant, Draw, complete_totp, of_user, check_code, consume_counter}
use waiting_room.Auth.Store.Counters.{counter_floor, consume_counter-IsStore}
use waiting_room.Auth.Store.Opened.{Opens, complete_totp-Opens}
use waiting_room.Auth.Store.Sessions
use waiting_room.Auth.Store.Sessions.{
  Operation, SessionView, Snapshot, load_session, operate, run, view,
}
use waiting_room.Auth.Store.Reauth.{Command, consume_reauth, action_request_digest}
use waiting_room.Auth.Store.Once.{Later, complete_totp_once}
use waiting_room.Auth.Store.Access.{opened_as, login_opens_session}
use waiting_room.Auth.Store.Logout.{LoggedOut, Quiet, run_logout_ends}
use waiting_room.Auth.Store.Proofs.{Spends, consume_reauth_once}

abbrev bytes : Text
bytes = codes "0123456789abcdef0123456789abcdef"

abbrev token : Text
token = codes "0123456789abcdef0123456789abcdef0123456789A"

abbrev hash : Text
hash = take 32 token

-- The hash is the first 32 bytes, the HMAC of every message 20 zeros.
abbrev library : Library
library = record {
  decode = λ t. some bytes;
  sha256 = take 32;
  hmac_sha1 =
      λ k m. 0 ∷ 0 ∷ 0 ∷ 0 ∷ 0 ∷ 0 ∷ 0 ∷ 0 ∷ 0 ∷ 0 ∷ 0 ∷ 0 ∷ 0 ∷ 0 ∷ 0 ∷ 0 ∷ 0 ∷ 0 ∷ 0 ∷ 0 ∷ [];
  open_secret = λ r k s. some (record { key = s; valid = true });
  auth_audit = true;
}

-- 300 seconds after 1970.
abbrev now : ℕ
now = 62135597100000000000

abbrev draw : Draw
draw = record {
  session_token = some (codes "session", codes "sssssssssssssssssssssssssssssssss");
  csrf_token = some (codes "csrf", bytes);
  request_id = true;
  now = now;
  challenge_at = now;
  session_at = now;
  commits = Commit.committed;
}

abbrev proof : Proof
proof = record {
  session_hash = hash;
  action = codes "new_epoch";
  target_id = codes "installation";
  request_digest = bytes;
  created_at = now;
  expires_at = now + 1000;
  consumed = false;
}

abbrev tables : Tables
tables = record {
  policy = some (record { mode = PolicyMode.configurable; totp_enabled = true; version = 1 });
  accounts =
      (codes "ada", record { role = Policy.admin; enabled = true; session_version = 1 }) ∷ [];
  credentials =
      (
        codes "ada",
        record { version = 1; key_id = codes "k"; sealed_secret = codes "s"; last_counter = pos 3 },
      )
      ∷ [];
  challenges =
      (
        hash,
        record {
          user_id = codes "ada";
          credential_version = 1;
          policy_version = 1;
          user_version = 1;
          attempts = 2;
          consumed = false;
          created_at = now;
          expires_at = now + 1000;
        },
      )
      ∷ [];
  sessions =
      (
        hash,
        record {
          csrf_hash = hash;
          user_id = codes "ada";
          policy_version = 1;
          user_version = 1;
          mfa_verified = true;
          created_at = now;
          last_seen_at = now;
        },
      )
      ∷ [];
  proofs = (hash, proof) ∷ [];
  audit = [];
}

abbrev code : Text
code = codes "000000"

abbrev after : Tables
after = (complete_totp library draw token code tables).0

abbrev grant : Grant
grant = record { session = codes "session"; csrf = codes "csrf" }

hashed : token_hash library token ≡ some hash
unfolding token_hash take
hashed = refl

granted : complete_totp library draw token code tables ≡ (after, ok grant)
unfolding complete_totp of_user check_code token_hash validate capabilities capabilities_in rules
    requirement verify_and_consume valid_ref match_counter latest hotp padded zeros big_endian
    bytes_of decimal digits_onto consume_counter audit_auth lookup insert text_eq take drop all any
granted = refl

complete_totp-Opens_example : Opens library draw token code tables after grant
complete_totp-Opens_example = complete_totp-Opens library draw token code tables after grant granted

-- The same challenge again, with the same code.
complete_totp_once_example : complete_totp library draw token code after ≢ (after, ok grant)
complete_totp_once_example =
    complete_totp_once library (λ t. t) [] draw draw token code code tables after after after grant
      grant granted Later.start

consume_counter-IsStore_example :
    IsStore library.hmac_sha1
      (consume_counter library draw (record {
        ref = record { user_id = codes "ada"; version = 1 };
        challenge_hash = hash;
        session_hash = codes "s";
        csrf_hash = bytes;
        policy = 1;
        user_version = 1;
      }))
      counter_floor
consume_counter-IsStore_example = consume_counter-IsStore library draw (record {
  ref = record { user_id = codes "ada"; version = 1 };
  challenge_hash = hash;
  session_hash = codes "s";
  csrf_hash = bytes;
  policy = 1;
  user_version = 1;
})

only_ada :
    (user : Text) (a : AccountRow)
    → lookup user tables.accounts ≡ some a
    → (user ≢ []) × (a.session_version ≢ 0)
unfolding lookup text_eq
only_ada user a h = elim (Bool-cases (text_eq (codes "ada") user)) [
  | inl e ↦ (λ n. absurd (cc (subst (λ x. text_eq (codes "ada") x ≡ true) n e)), ground arith)
  | inr e ↦ absurd (ground arith)
]

csrf_32 : (t h : Text) → draw.csrf_token ≡ some (t, h) → length h ≡ 32
csrf_32 t h e = ground arith

login_opens_session_example :
    (login : Text) × (ch : Challenge) × (h : Text) × (a : AccountRow) × (p : AuthPolicy)
    × (csrf : Text) × (token_hash library token ≡ some login)
    × (lookup login tables.challenges ≡ some ch)
    × (draw.session_token ≡ some (codes "session", h))
    × (lookup ch.user_id tables.accounts ≡ some a)
    × (tables.policy ≡ some p)
    × (load_session after h (now + 5) ≡ ok (opened_as ch.user_id a p now (now + 5) csrf))
login_opens_session_example =
    login_opens_session library draw token code tables after grant (now + 5) granted only_ada
      csrf_32 (omega arith) (omega arith) (omega arith)

abbrev request : Request
request = record { method = codes "POST"; origins = codes "o" ∷ []; csrf_tokens = token ∷ [] }

abbrev ended : Tables × Result Sessions.Error SessionView
ended =
    run library (codes "o") true now Commit.committed token (some request) Operation.logout
      (now + 5) tables

abbrev seen : Snapshot
seen =
    opened_as (codes "ada") (record { role = Policy.admin; enabled = true; session_version = 1 })
      (record { mode = PolicyMode.configurable; totp_enabled = true; version = 1 }) now (now + 5)
      hash

-- The token is used once more.
abbrev later_end : Tables × Result Sessions.Error SessionView
later_end =
    run library (codes "o") true now Commit.committed token (some request) Operation.touch (now + 6)
      ended.0

logged_out : ended ≡ (ended.0, ok (view seen))
unfolding run token_hash load_session check_session validate role_bit check_mutation operate
    audit_auth lookup keep text_eq take all
logged_out = refl

run_logout_ends_example :
    LoggedOut hash tables ended.0 × (load_session later_end.0 hash (now + 7) ≢ ok seen)
run_logout_ends_example =
    run_logout_ends library (λ t. t) (codes "o") true now Commit.committed token hash (some request)
      (now + 5) (now + 7) tables ended.0 (view seen) seen hashed logged_out
      (Quiet.session true now Commit.committed token (some request) Operation.touch (now + 6)
        Quiet.start)

abbrev command : Command
command = record { method = codes "POST"; reauth_tokens = token ∷ []; if_match = [] }

abbrev spent_tables : Tables
spent_tables =
    (consume_reauth library (λ t. bytes) token command (codes "new_epoch") (codes "installation") []
      now tables).0

accepted :
    consume_reauth library
      (λ t. bytes)
      token
      command
      (codes "new_epoch")
      (codes "installation")
      []
      now
      tables
    ≡ (spent_tables, ok tt)
unfolding consume_reauth token_hash action_request_digest lookup insert text_eq take
accepted = refl

consume_reauth_once_example :
    Spends library
      (λ t. bytes)
      token
      command
      (codes "new_epoch")
      (codes "installation")
      []
      now
      tables
      spent_tables
    × (consume_reauth library
          (λ t. bytes)
          token
          command
          (codes "new_epoch")
          (codes "installation")
          []
          (now + 1)
          spent_tables
        ≢ (spent_tables, ok tt))
unfolding lookup
consume_reauth_once_example =
    consume_reauth_once library (λ t. bytes) [] token token command command (codes "new_epoch")
      (codes "new_epoch") (codes "installation") (codes "installation") [] [] now (now + 1) tables
      spent_tables spent_tables spent_tables (refl, tt) accepted Later.start refl
