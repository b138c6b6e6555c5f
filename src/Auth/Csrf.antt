-- ===== src/Auth/Csrf.antt =====
-- internal/adminauth/csrf.go: the check of a mutation's origin and token. Base64 and SHA-256 are
-- arguments; a request is its method and the values of the two headers.
use waiting_room.Base.{
  Bool, not, ◌||◌, List, [], ◌∷◌, Option, none, some, ◌==◌, if◌then◌else◌, Text, codes, text_eq,
  length, all,
}
use waiting_room.Auth.Session.{Error}

pub record Request : Type 0 where
  pub method : Text
  pub origins : List Text
  pub csrf_tokens : List Text

abbrev pub is_mutation : Text → Bool
is_mutation m =
    text_eq m (codes "POST")
    || text_eq m (codes "PUT")
    || text_eq m (codes "PATCH")
    || text_eq m (codes "DELETE")

-- `http.Header.Get`: the first value, or the empty string.
abbrev pub get : List Text → Text
get [] = []
get (v ∷ vs) = v

abbrev pub when : Bool → Option Error
when refused = if refused then some Error.forbidden else none

-- `decode` is strict base64 for URLs without padding; the hash is 32 bytes.
unfoldable pub check_mutation :
    (decode : Text → Option Text) (sha256 : Text → Text) (origin : Text)
    → Request
    → Text
    → Option Error
check_mutation decode sha256 origin r token_hash =
    if text_eq origin [] || all (λ b. b == 0) token_hash
    then some Error.forbidden
    else if not (is_mutation r.method)
    then some Error.forbidden
    else if not (length r.origins == 1)
        || not (text_eq (get r.origins) origin)
        || not (length r.csrf_tokens == 1)
    then some Error.forbidden
    else if not (length (get r.csrf_tokens) == 43)
    then some Error.forbidden
    else elim (decode (get r.csrf_tokens)) [
      | none ↦ some Error.forbidden
      | some decoded ↦
          when (not (length decoded == 32) || not (text_eq (sha256 (get r.csrf_tokens)) token_hash))
    ]
