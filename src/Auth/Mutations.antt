-- ===== src/Auth/Mutations.antt =====
-- internal/adminauth/csrf.go: which requests may change state.
use waiting_room.Base.{
  ◌≡◌, ◌≢◌, ◌⊎◌, ◌↔◌, arith, true, false, [], Option, none, some, ◌==◌, Option-cases, inl, inr,
  Text, text_eq_iff, length, all,
}
use waiting_room.Auth.Session.{Error}
use waiting_room.Auth.Csrf.{Request, is_mutation, get, check_mutation}

-- What lets a request through.
pub record IsGenuine (decode : Text → Option Text) (sha256 : Text → Text) (origin : Text)
    (r : Request) (token_hash : Text) : Type 0 where
  pub pinned : origin ≢ []
  pub bound : all (λ b. b == 0) token_hash ≡ false
  pub mutates : is_mutation r.method ≡ true
  pub one_origin : length r.origins ≡ 1
  pub same_origin : get r.origins ≡ origin
  pub one_token : length r.csrf_tokens ≡ 1
  pub token_size : length (get r.csrf_tokens) ≡ 43
  pub well_formed : (d : Text) × (decode (get r.csrf_tokens) ≡ some d) × (length d ≡ 32)
  pub matches : sha256 (get r.csrf_tokens) ≡ token_hash

-- `CheckMutation` lets through exactly a mutation with one origin, the pinned one, and one token
-- that is well formed and has the hash of the session's; it refuses all others as forbidden.
pub check_mutation_iff :
    (decode : Text → Option Text) (sha256 : Text → Text) (origin : Text) (r : Request)
    (token_hash : Text)
    → ((check_mutation decode sha256 origin r token_hash ≡ none)
        ↔ IsGenuine decode sha256 origin r token_hash)
      × ((check_mutation decode sha256 origin r token_hash ≡ none)
          ⊎ (check_mutation decode sha256 origin r token_hash ≡ some Error.forbidden))
unfolding check_mutation
check_mutation_iff decode sha256 origin r token_hash =
    elim (Option-cases (decode (get r.csrf_tokens))) [
      | inl none' ↦
          ((λ h. absurd (ground arith), λ g. absurd (cc (none', g.well_formed.1))), ground arith)
      | inr (d, some') ↦ (
        (
          λ h. record {
            pinned = ground (arith, text_eq_iff origin []);
            bound = ground arith;
            mutates = ground arith;
            one_origin = ground arith;
            same_origin = ground (arith, text_eq_iff (get r.origins) origin);
            one_token = ground arith;
            token_size = ground arith;
            well_formed = (d, some', ground arith);
            matches = ground (arith, text_eq_iff (sha256 (get r.csrf_tokens)) token_hash);
          },
          λ g. ground (
            arith,
            g.well_formed,
            text_eq_iff origin [],
            text_eq_iff (get r.origins) origin,
            text_eq_iff (sha256 (get r.csrf_tokens)) token_hash,
          ),
        ),
        ground arith,
      )
    ]
