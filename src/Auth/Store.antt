-- ===== src/Auth/Store.antt =====
-- internal/adminauth/pgstore: the tables of the Backoffice's authentication, with a row under its
-- primary key, and the outcomes of a transaction. The rows that a call reads are locked until its
-- end, so that a call is one step; a statement that fails aborts it. Base64 and SHA-256, HMAC-SHA1
-- and Vault.open are arguments. Instants are nanoseconds since Go's zero time.
pub mod Login
pub mod Sessions
pub mod Reauth
pub mod Counters
pub mod LoginFrame
pub mod Frame
pub mod Once
pub mod Opened
pub mod Access
pub mod Logout
pub mod Proofs
use waiting_room.Base.{
  ℕ, Bool, not, List, ◌∷◌, Option, none, some, ◌==◌, if◌then◌else◌, Text, length, lookup,
  match_some,
}
use waiting_room.Base.Int.{ℤ}
use waiting_room.Auth.Policy.{Role}
use waiting_room.Auth.Session.{AuthPolicy}
use waiting_room.Auth.Totp.{CredentialRef, Secret}

pub record AccountRow : Type 0 where
  pub role : Role
  pub enabled : Bool
  pub session_version : ℕ

pub record Credential : Type 0 where
  pub version : ℕ
  pub key_id : Text
  pub sealed_secret : Text
  pub last_counter : ℤ

pub record Challenge : Type 0 where
  pub user_id : Text
  pub credential_version : ℕ
  pub policy_version : ℕ
  pub user_version : ℕ
  pub attempts : ℕ
  pub consumed : Bool
  pub created_at : ℕ
  pub expires_at : ℕ

pub record SessionRow : Type 0 where
  pub csrf_hash : Text
  pub user_id : Text
  pub policy_version : ℕ
  pub user_version : ℕ
  pub mfa_verified : Bool
  pub created_at : ℕ
  pub last_seen_at : ℕ

pub record Proof : Type 0 where
  pub session_hash : Text
  pub action : Text
  pub target_id : Text
  pub request_digest : Text
  pub created_at : ℕ
  pub expires_at : ℕ
  pub consumed : Bool

pub record AuditRow : Type 0 where
  pub actor_id : Text
  pub actor_role : Role
  pub action : Text
  pub result : Text

pub record Tables : Type 0 where
  pub policy : Option AuthPolicy
  pub accounts : List (Text × AccountRow)
  pub credentials : List (Text × Credential)
  pub challenges : List (Text × Challenge)
  pub sessions : List (Text × SessionRow)
  pub proofs : List (Text × Proof)
  pub audit : List AuditRow

-- A commit: done, not done, or done but reported as failed.
pub data Commit : Type 0 where
  committed aborted lost : Commit

-- What the store asks of others, and whether it audits.
pub record Library : Type 0 where
  pub decode : Text → Option Text
  pub sha256 : Text → Text
  pub hmac_sha1 : Text → Text → Text
  pub open_secret : CredentialRef → Text → Text → Option Secret
  pub auth_audit : Bool

unfoldable pub token_hash : Library → Text → Option Text
token_hash lib raw =
    if not (length raw == 43)
    then none
    else match_some (lib.decode raw) none
        (λ decoded. if not (length decoded == 32) then none else some (lib.sha256 raw))

-- auditAuth for a known user, with an action and a result of its fixed lists; `drawn` is whether a
-- request identifier could be drawn.
unfoldable pub audit_auth : Library → Bool → Text → Text → Text → Tables → Option Tables
audit_auth lib drawn user action result db =
    if not lib.auth_audit
    then some db
    else if not drawn
    then none
    else match_some (lookup user db.accounts) none (λ a. some (record db {
      audit =
          record { actor_id = user; actor_role = a.role; action = action; result = result }
          ∷ db.audit;
    }))
