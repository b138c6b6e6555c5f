-- ===== src/Keyring/Given.antt =====
-- internal/keyring/keyring.go: which of the owner's keys and secrets a role is given.
use waiting_room.Base.{◌≡◌, ◌⊎◌, inl, inr, refl, [], Option, none, some, Text, text_eq}
use waiting_room.Keyring.{Key, Set, control, coordinator, gateway, sanitize, over, for_role}

abbrev pub IsServiceRole : Text → Type 0
IsServiceRole role = (role ≡ control) ⊎ (role ≡ coordinator) ⊎ (role ≡ gateway)

-- What a service has of a key of the owner's: the identifier, the time and the public keys, the secrets
-- of its role, and no others.
abbrev pub SameKey : Key → Key → Type 0
SameKey k given =
    (given.id ≡ k.id)
    × (given.since ≡ k.since)
    × (given.config_public ≡ k.config_public)
    × (given.admission_public ≡ k.admission_public)

abbrev pub Given : {role : Text} → IsServiceRole role → Key → Key → Type 0
Given (inl _) k given =
    SameKey k given
    × (given.config_private ≡ k.config_private)
    × (given.admission_private ≡ [])
    × (given.replay ≡ [])
    × (given.return ≡ [])
Given (inr (inl _)) k given =
    SameKey k given
    × (given.config_private ≡ [])
    × (given.admission_private ≡ k.admission_private)
    × (given.replay ≡ k.replay)
    × (given.return ≡ [])
Given (inr (inr _)) k given =
    SameKey k given
    × (given.config_private ≡ [])
    × (given.admission_private ≡ [])
    × (given.replay ≡ [])
    × (given.return ≡ k.return)

-- Of no key, none; of a key, what the service has of it.
abbrev pub GivenOption : {role : Text} → IsServiceRole role → Option Key → Option Key → Type 0
GivenOption r none none = Unit
GivenOption r (some k) (some given) = Given r k given
GivenOption r _ _ = ⊥

abbrev pub GivenSet : {role : Text} → IsServiceRole role → Set → Set → Type 0
GivenSet r s given =
    (given.generation ≡ s.generation)
    × (given.phase ≡ s.phase)
    × Given r s.current given.current
    × GivenOption r s.previous given.previous
    × GivenOption r s.next given.next

sanitize-Given : {role : Text} (r : IsServiceRole role) (k : Key) → Given r k (sanitize role k)
unfolding sanitize text_eq
sanitize-Given (inl e) k = rw e ((refl, refl, refl, refl), refl, refl, refl, refl)
sanitize-Given (inr (inl e)) k = rw e ((refl, refl, refl, refl), refl, refl, refl, refl)
sanitize-Given (inr (inr e)) k = rw e ((refl, refl, refl, refl), refl, refl, refl, refl)

over-Given :
    {role : Text} (r : IsServiceRole role) (o : Option Key)
    → GivenOption r o (over (sanitize role) o)
over-Given r none = tt
over-Given r (some k) = sanitize-Given r k

pub for_role-GivenSet :
    {role : Text} (r : IsServiceRole role) (s : Set) → GivenSet r s (for_role s role)
unfolding for_role
for_role-GivenSet r s =
    (refl, refl, sanitize-Given r s.current, over-Given r s.previous, over-Given r s.next)
