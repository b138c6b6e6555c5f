-- ===== src/Auth/Store/Reauth.antt =====
-- internal/adminauth/pgstore/reauth.go: the consumption of a proof of reauthentication.
use waiting_room.Base.{
  ℕ, Bool, true, not, ◌&&◌, List, [], ◌∷◌, ◌++◌, ◌==◌, leb, ltb, if◌then◌else◌, Text, codes,
  text_eq, length, lookup, insert, match_some, Result, ok, err,
}
use waiting_room.Auth.Store.{Proof, Tables, Library, token_hash}
use waiting_room.Auth.Store.Sessions.{Error, forbidden}
use waiting_room.Auth.Csrf.{get}

-- What consumeReauth reads of a request.
pub record Command : Type 0 where
  pub method : Text
  pub reauth_tokens : List Text
  pub if_match : List Text

-- `10`, the line feed.
abbrev pub line : Text → Text
line t = t ++ (10 ∷ [])

abbrev pub action_input : Text → Text → Text → Text → Text
action_input method target etag raw =
    line (codes "wr-action/v1") ++ (line method ++ (line target ++ (line etag ++ raw)))

-- `hex` is the hexadecimal SHA-256.
unfoldable pub action_request_digest : (Text → Text) → Text → Text → Text → Text → Text
action_request_digest hex method target etag raw = hex (action_input method target etag raw)

-- The condition of the update that consumes a proof.
abbrev pub is_usable : Proof → Text → Text → Text → Text → ℕ → Bool
is_usable p session action target digest at =
    text_eq p.session_hash session
    && text_eq p.action action
    && text_eq p.target_id target
    && text_eq p.request_digest digest
    && not p.consumed
    && leb p.created_at at
    && ltb at p.expires_at

abbrev pub spent : Tables → Text → Proof → Tables
spent db hash p = record db { proofs = insert hash (record p { consumed = true }) db.proofs }

-- The array of a token that is not one.
abbrev no_hash : Text
no_hash =
    0 ∷ 0 ∷ 0 ∷ 0 ∷ 0 ∷ 0 ∷ 0 ∷ 0 ∷ 0 ∷ 0 ∷ 0 ∷ 0 ∷ 0 ∷ 0 ∷ 0 ∷ 0 ∷ 0 ∷ 0 ∷ 0 ∷ 0 ∷ 0 ∷ 0 ∷ 0 ∷ 0
    ∷ 0 ∷ 0 ∷ 0 ∷ 0 ∷ 0 ∷ 0 ∷ 0 ∷ 0 ∷ []

abbrev pub session_hash : Library → Text → Text
session_hash lib token = match_some (token_hash lib token) no_hash (λ hash. hash)

unfoldable pub consume_reauth :
    Library
    → (Text → Text)
    → Text
    → Command
    → Text
    → Text
    → Text
    → ℕ
    → Tables
    → Tables × Result Error (Unit {0})
consume_reauth lib hex token r action target raw at db =
    if not (length r.reauth_tokens == 1)
    then (db, err forbidden)
    else match_some (token_hash lib (get r.reauth_tokens)) (db, err forbidden)
        (λ hash.
          match_some (lookup hash db.proofs) (db, err forbidden)
            (λ p.
              if not (
                is_usable p (session_hash lib token) action target
                  (action_request_digest hex r.method target (get r.if_match) raw) at)
              then (db, err forbidden)
              else (spent db hash p, ok tt)))
