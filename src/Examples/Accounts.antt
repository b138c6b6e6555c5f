-- ===== src/Examples/Accounts.antt =====
-- internal/adminauth: an operator's session, a code and a request.
use waiting_room.Base.{
  ℕ, suc, ◌<◌, ◌≡◌, ◌≢◌, ◌⊎◌, ◌↔◌, refl, arith, Bool, true, false, [], ◌∷◌, ◌++◌, Option, none,
  some, if◌then◌else◌, Text, codes, text_eq, ltb, ok, take, drop, all, decimal, digits_onto,
}
use waiting_room.Base.Int.{pos}
use waiting_room.Auth.Policy.{operator, rotate_keys}
use waiting_room.Auth.Rights.{grants, is_dangerous}
use waiting_room.Auth.Session.{
  Error, PolicyMode, AuthPolicy, Account, Session, check_session, check_ordinary_action,
}
use waiting_room.Auth.Validity.{Holds, check_session-Holds, check_ordinary_action-grants}
use waiting_room.Auth.Totp.{
  Secret, CredentialRef, big_endian, bytes_of, zeros, padded, hotp, latest, match_counter,
  valid_ref, verify_and_consume, totp_digits,
}
use waiting_room.Auth.OneUse.{InWindow, IsStore, match_counter_newest, verify_once}
use waiting_room.Auth.Csrf.{Request, check_mutation}
use waiting_room.Auth.Mutations.{IsGenuine, check_mutation_iff}

abbrev account : Account
account = record {
  id = codes "kim";
  role = operator;
  enabled = true;
  session_version = 4;
  totp_enrolled = true;
}

abbrev session : Session
session = record {
  user_id = codes "kim";
  auth_policy_version = 2;
  user_session_version = 4;
  mfa_verified = true;
  created_at = 100;
  last_seen_at = 200;
}

abbrev policy : AuthPolicy
policy = record { mode = PolicyMode.forced_on; totp_enabled = true; version = 2 }

check_session-Holds_example :
    ((check_session account session policy 300 ≡ none) ↔ Holds account session policy 300)
    × ((check_session account session policy 300 ≡ none)
        ⊎ (check_session account session policy 300 ≡ some Error.unauthenticated))
check_session-Holds_example = check_session-Holds account session policy 300

check_ordinary_action-grants_example :
    ((check_ordinary_action account session policy rotate_keys 300 ≡ none) ↔ (
      Holds account session policy 300
      × (grants operator rotate_keys ≡ true)
      × (is_dangerous rotate_keys ≡ false)))
    × ((check_ordinary_action account session policy rotate_keys 300
          ≡ some Error.reauthentication_required)
        ↔ (Holds account session policy 300
            × (grants operator rotate_keys ≡ true)
            × (is_dangerous rotate_keys ≡ true)))
check_ordinary_action-grants_example =
    check_ordinary_action-grants account session policy rotate_keys 300

-- A code of six digits whose last one is the last digit of the counter.
abbrev toy_hmac : Text → Text → Text
toy_hmac key message = drop 4 message ++ 0 ∷ []

abbrev secret : Secret
secret = record { key = []; valid = true }

match_counter_newest_example :
    (hotp toy_hmac [] 4 totp_digits ≡ codes "000004")
    × InWindow toy_hmac 100 4
    × ((d : ℕ) → 4 < d → InWindow toy_hmac 100 d → hotp toy_hmac [] d totp_digits ≢ codes "000004")
unfolding match_counter latest hotp big_endian bytes_of zeros padded decimal digits_onto take drop
    all text_eq
match_counter_newest_example = match_counter_newest toy_hmac secret (codes "000004") 100 4 refl

-- A store for one credential: the least counter that it still accepts.
abbrev consume : ℕ → CredentialRef → ℕ → ℕ × Option Bool
consume floor ref c = if ltb c floor then (floor, some false) else (suc c, some true)

consume-IsStore : IsStore toy_hmac consume (λ floor ref. floor)
consume-IsStore = record { refuses = λ s r c l e. ground arith; records = λ s r c e. ground arith }

abbrev ref : CredentialRef
ref = record { user_id = codes "kim"; version = 1 }

verify_once_example :
    (verify_and_consume toy_hmac consume true ref secret (codes "000004") (pos 100) 6).1 ≢ ok tt
unfolding verify_and_consume valid_ref match_counter latest hotp big_endian bytes_of zeros padded
    decimal digits_onto take drop all text_eq
verify_once_example =
    verify_once toy_hmac consume {floor = λ floor ref. floor} ref secret (codes "000004") (pos 100)
      0 5 6 consume-IsStore refl (omega arith)

abbrev request : Request
request = record {
  method = codes "POST";
  origins = codes "https://admin.lab" ∷ [];
  csrf_tokens = codes "0123456789012345678901234567890123456789012" ∷ [];
}

check_mutation_iff_example :
    let outcome =
      check_mutation
        (λ t. some (take 32 t))
        (λ t. t)
        (codes "https://admin.lab")
        request
        (codes "0123456789012345678901234567890123456789012") in
    ((outcome ≡ none)
      ↔ IsGenuine
          (λ t. some (take 32 t))
          (λ t. t)
          (codes "https://admin.lab")
          request
          (codes "0123456789012345678901234567890123456789012"))
    × ((outcome ≡ none) ⊎ (outcome ≡ some Error.forbidden))
check_mutation_iff_example =
    check_mutation_iff (λ t. some (take 32 t)) (λ t. t) (codes "https://admin.lab") request
      (codes "0123456789012345678901234567890123456789012")
