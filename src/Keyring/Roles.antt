-- ===== src/Keyring/Roles.antt =====
-- internal/keyring/keyring.go: the owner's keys, given to a role.
use waiting_room.Base.{
  ◌≡◌, ◌≢◌, inl, inr, refl, sym, ap, ◌∙◌, subst, arith, Bool, true, false, ◌&&◌, List, [], ◌∷◌,
  ◌++◌, Option, none, some, map, Text, text_eq, text_eq_iff,
}
use waiting_room.Keyring.Given.{IsServiceRole, GivenSet, for_role-GivenSet}
use waiting_room.Keyring.{
  Key, Set, Ed25519, keys, present, listed, control, coordinator, gateway, owner, refused_phase,
  secret_ok, refused_key, refused_rotation, known_role, private_ok, secrets_ok, keys_ok, validate,
  sanitize, over, for_role, digest,
}

-- Which secrets a role has, in the order config, admission with replay, return.
all_secrets : (ed : Ed25519) (c a g : Bool) (k : Key) → Bool
all_secrets ed c a g k =
    private_ok ed c k.config_private k.config_public
    && private_ok ed a k.admission_private k.admission_public
    && secret_ok a k.replay
    && secret_ok g k.return

no_private : (ed : Ed25519) (public' : Text) → private_ok ed false [] public' ≡ true
unfolding private_ok
no_private ed public' = refl

no_secret : secret_ok false [] ≡ true
unfolding secret_ok
no_secret = refl

owner_secrets : (ed : Ed25519) (k : Key) → secrets_ok ed owner k ≡ all_secrets ed true true true k
unfolding secrets_ok all_secrets text_eq
owner_secrets ed k = refl

control_secrets :
    (ed : Ed25519) (k : Key)
    → all_secrets ed true true true k ≡ true
    → secrets_ok ed control (sanitize control k) ≡ true
unfolding secrets_ok sanitize all_secrets text_eq
control_secrets ed k h = ground (arith, no_private ed k.admission_public, no_secret)

coordinator_secrets :
    (ed : Ed25519) (k : Key)
    → all_secrets ed true true true k ≡ true
    → secrets_ok ed coordinator (sanitize coordinator k) ≡ true
unfolding secrets_ok sanitize all_secrets text_eq
coordinator_secrets ed k h = ground (arith, no_private ed k.config_public, no_secret)

gateway_secrets :
    (ed : Ed25519) (k : Key)
    → all_secrets ed true true true k ≡ true
    → secrets_ok ed gateway (sanitize gateway k) ≡ true
unfolding secrets_ok sanitize all_secrets text_eq
gateway_secrets ed k h =
    ground (arith, no_private ed k.config_public, no_private ed k.admission_public, no_secret)

secrets_sanitized :
    (ed : Ed25519) (role : Text) (k : Key)
    → IsServiceRole role
    → secrets_ok ed owner k ≡ true
    → secrets_ok ed role (sanitize role k) ≡ true
secrets_sanitized ed role k (inl e) h =
    subst (λ r. secrets_ok ed r (sanitize r k) ≡ true) (sym e)
      (control_secrets ed k (sym (owner_secrets ed k) ∙ h))
secrets_sanitized ed role k (inr (inl e)) h =
    subst (λ r. secrets_ok ed r (sanitize r k) ≡ true) (sym e)
      (coordinator_secrets ed k (sym (owner_secrets ed k) ∙ h))
secrets_sanitized ed role k (inr (inr e)) h =
    subst (λ r. secrets_ok ed r (sanitize r k) ≡ true) (sym e)
      (gateway_secrets ed k (sym (owner_secrets ed k) ∙ h))

refused_sanitized :
    (role : Text) (seen : List Text) (k : Key)
    → refused_key seen (sanitize role k) ≡ refused_key seen k
unfolding refused_key sanitize
refused_sanitized role seen k = refl

sanitize_id : (role : Text) (k : Key) → (sanitize role k).id ≡ k.id
unfolding sanitize
sanitize_id role k = refl

keys_sanitized :
    (ed : Ed25519) (role : Text) (seen : List Text) (ks : List Key)
    → IsServiceRole role
    → keys_ok ed owner seen ks ≡ true
    → keys_ok ed role seen (map (sanitize role) ks) ≡ true
unfolding keys_ok
keys_sanitized ed role seen [] r h = refl
keys_sanitized ed role seen (k ∷ ks) r h =
    let rest =
      subst (λ i. keys_ok ed role (i ∷ seen) (map (sanitize role) ks) ≡ true)
        (sym (sanitize_id role k)) (keys_sanitized ed role (k.id ∷ seen) ks r (ground arith)) in
    ground (arith, rest, refused_sanitized role seen k, secrets_sanitized ed role k r)

listed-over :
    (f : Key → Key) (a b : Option Key)
    → listed (over f a) ++ listed (over f b) ≡ map f (listed a ++ listed b)
listed-over f none none = refl
listed-over f none (some b) = refl
listed-over f (some a) none = refl
listed-over f (some a) (some b) = refl

keys-for_role : (s : Set) (role : Text) → keys (for_role s role) ≡ map (sanitize role) (keys s)
unfolding keys for_role
keys-for_role s role =
    ap (◌∷◌ (sanitize role s.current)) (listed-over (sanitize role) s.previous s.next)

present-over : (f : Key → Key) (o : Option Key) → present (over f o) ≡ present o
present-over f none = refl
present-over f (some k) = refl

phase-for_role : (s : Set) (role : Text) → refused_phase (for_role s role) ≡ refused_phase s
unfolding refused_phase for_role
phase-for_role s role =
    rw (present-over (sanitize role) s.previous) (rw (present-over (sanitize role) s.next) refl)

rotation-for_role :
    (role : Text) (s : Set) → refused_rotation (for_role s role) ≡ refused_rotation s
unfolding refused_rotation for_role sanitize
rotation-for_role role s =
    elim s.previous
      as (λ o.
        refused_rotation (for_role (record s { previous = o }) role)
        ≡ refused_rotation (record s { previous = o })) [ none ↦ refl | some p ↦ refl ]

known : (role : Text) → IsServiceRole role → known_role role ≡ true
known role r =
    ground (arith, text_eq_iff role control, text_eq_iff role coordinator, text_eq_iff role gateway)

-- If the owner's set of keys is valid then what `ForRole` gives the control, coordinator or gateway
-- service is valid for that role, and has the same generation and phase and the same keys in the same
-- places, each with its identifier, time and public keys, the secrets of the role, and no others.
pub for_role-validate :
    (ed : Ed25519) (s : Set) (role : Text)
    → (r : IsServiceRole role) → validate ed s owner ≡ none
    → (validate ed (for_role s role) role ≡ none) × GivenSet r s (for_role s role)
unfolding validate
for_role-validate ed s role r v =
    let ks =
      subst (λ l. keys_ok ed role [] l ≡ true) (sym (keys-for_role s role))
        (keys_sanitized ed role [] (keys s) r (ground arith)) in
    (
      ground (arith, ks, phase-for_role s role, rotation-for_role role s, known role r),
      for_role-GivenSet r s,
    )

text_neq : (a b : Text) → a ≢ b → text_eq a b ≡ false
text_neq a b n = ground (arith, text_eq_iff a b)

-- What `ForRole` gives a role has no private configuration key unless the role is control, no
-- private admission key and no replay secret unless it is coordinator, and no return secret unless
-- it is gateway; the identifier, the time and the public keys stay.
pub sanitize-secrets :
    (role : Text) (k : Key)
    → ((role ≢ control) → (sanitize role k).config_private ≡ [])
      × ((role ≢ coordinator)
          → ((sanitize role k).admission_private ≡ []) × ((sanitize role k).replay ≡ []))
      × ((role ≢ gateway) → (sanitize role k).return ≡ [])
      × ((sanitize role k).id ≡ k.id)
      × ((sanitize role k).since ≡ k.since)
      × ((sanitize role k).config_public ≡ k.config_public)
      × ((sanitize role k).admission_public ≡ k.admission_public)
unfolding sanitize
sanitize-secrets role k = (
  (λ n. rw (text_neq role control n) refl),
  (λ n. (rw (text_neq role coordinator n) refl, rw (text_neq role coordinator n) refl)),
  (λ n. rw (text_neq role gateway n) refl),
  refl,
  refl,
  refl,
  refl,
)

sanitize_twice : (role : Text) (k : Key) → sanitize [] (sanitize role k) ≡ sanitize [] k
unfolding sanitize text_eq
sanitize_twice role k = refl

over_twice :
    (role : Text) (o : Option Key)
    → over (sanitize []) (over (sanitize role) o) ≡ over (sanitize []) o
over_twice role none = refl
over_twice role (some k) = ap some (sanitize_twice role k)

-- Every role computes one digest: that of what a role is given is that of the owner's set.
pub digest-for_role :
    (hash : Set → Text) (s : Set) (role : Text) → digest hash (for_role s role) ≡ digest hash s
unfolding for_role
digest-for_role hash s role = ap hash (
    rw (sanitize_twice role s.current)
      (rw (over_twice role s.previous) (rw (over_twice role s.next) refl)))
