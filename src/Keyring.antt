-- ===== src/Keyring.antt =====
-- internal/keyring/keyring.go: the deployment keys, their validation for a role and what a role is
-- given. A byte slice is its bytes: nil and empty are one. Ed25519 is the interface Ed25519, with
-- the public key of a private one and the private key of a seed; JSON with SHA-256 is an argument.
pub mod Given
pub mod Roles
pub mod Rotation
use waiting_room.Base.{
  ℕ, Bool, true, false, not, ◌&&◌, ◌||◌, List, [], ◌∷◌, ◌++◌, Option, none, some, map, ◌==◌,
  if◌then◌else◌, Text, codes, text_eq, length, take, all, any, within,
}
use waiting_room.Base.Int.{ℤ, pos, ltb_ℤ, leb_ℤ}

-- 24 hours and 30 seconds, in nanoseconds.
abbrev pub overlap : ℕ
overlap = 86430000000000

pub record Key : Type 0 where
  pub id : Text
  pub since : ℤ
  pub config_public : Text
  pub admission_public : Text
  pub config_private : Text
  pub admission_private : Text
  pub replay : Text
  pub return : Text

pub record Set : Type 0 where
  pub generation : ℤ
  pub phase : Text
  pub current : Key
  pub previous : Option Key
  pub next : Option Key

pub data Error : Type 0 where
  invalid : Error

pub record Ed25519 : Type 0 where
  pub public_of : Text → Text
  pub of_seed : Text → Text

abbrev is_hex : ℕ → Bool
is_hex c = within b'a' b'f' c || within b'0' b'9' c

-- `^(v1|[a-f0-9]{32})$`
unfoldable pub id_matches : Text → Bool
id_matches s = text_eq s (codes "v1") || (length s == 32 && all is_hex s)

abbrev pub config_kid : Key → Text
config_kid k = codes "config-" ++ k.id

abbrev pub admission_kid : Key → Text
admission_kid k = codes "admission-" ++ k.id

abbrev pub return_kid : Key → Text
return_kid k = codes "return-" ++ k.id

abbrev pub listed {ℓ} : {A : Type ℓ} → Option A → List A
listed none = []
listed (some a) = a ∷ []

unfoldable pub keys : Set → List Key
keys s = s.current ∷ (listed s.previous ++ listed s.next)

abbrev pub present {ℓ} : {A : Type ℓ} → Option A → Bool
present none = false
present (some a) = true

abbrev pub control : Text
control = codes "control"

abbrev pub coordinator : Text
coordinator = codes "coordinator"

abbrev pub gateway : Text
gateway = codes "gateway"

abbrev pub owner : Text
owner = codes "owner"

-- The bound 2^53 - 2 on generations and times.
abbrev pub limit : ℤ
limit = pos 9007199254740990

abbrev differ : Bool → Bool → Bool
differ a b = (a && not b) || (not a && b)

unfoldable pub refused_phase : Set → Bool
refused_phase s =
    ltb_ℤ s.generation (pos 1)
    || leb_ℤ limit s.generation
    || (not (text_eq s.phase (codes "stable"))
        && not (text_eq s.phase (codes "staged"))
        && not (text_eq s.phase (codes "active")))
    || differ (text_eq s.phase (codes "staged")) (present s.next)
    || differ (text_eq s.phase (codes "active")) (present s.previous)

abbrev zeros : Text
zeros =
    0 ∷ 0 ∷ 0 ∷ 0 ∷ 0 ∷ 0 ∷ 0 ∷ 0 ∷ 0 ∷ 0 ∷ 0 ∷ 0 ∷ 0 ∷ 0 ∷ 0 ∷ 0 ∷ 0 ∷ 0 ∷ 0 ∷ 0 ∷ 0 ∷ 0 ∷ 0 ∷ 0
    ∷ 0 ∷ 0 ∷ 0 ∷ 0 ∷ 0 ∷ 0 ∷ 0 ∷ 0 ∷ []

-- A 32-byte secret, present exactly if it is wanted.
unfoldable pub secret_ok : Bool → Text → Bool
secret_ok want data' =
    if want then not (not (length data' == 32) || text_eq data' zeros) else length data' == 0

unfoldable pub refused_key : List Text → Key → Bool
refused_key seen k =
    not (id_matches k.id)
    || any (text_eq k.id) seen
    || ltb_ℤ k.since (pos 0)
    || leb_ℤ limit k.since
    || not (length k.config_public == 32)
    || not (length k.admission_public == 32)

-- The role's order of times, and the role itself.
unfoldable pub refused_rotation : Set → Bool
refused_rotation s = elim s.previous [
  | none ↦ false
  | some p ↦
      leb_ℤ s.current.since p.since
      || (leb_ℤ s.current.since (pos 0) && leb_ℤ (pos 0) s.current.since)
]

abbrev pub known_role : Text → Bool
known_role role =
    text_eq role owner || text_eq role control || text_eq role coordinator || text_eq role gateway

module _ (ed : Ed25519) where
  -- A private key, present exactly if it is wanted.
  unfoldable pub private_ok : Bool → Text → Text → Bool
  private_ok want data' public' =
      if want
      then not (
          not (length data' == 64)
          || not (text_eq (ed.public_of data') public')
          || not (text_eq (ed.of_seed (take 32 data')) data'))
      else length data' == 0

  unfoldable pub secrets_ok : Text → Key → Bool
  secrets_ok role k =
      private_ok (text_eq role control || text_eq role owner) k.config_private k.config_public
      && private_ok (text_eq role coordinator || text_eq role owner) k.admission_private
          k.admission_public
      && secret_ok (text_eq role coordinator || text_eq role owner) k.replay
      && secret_ok (text_eq role gateway || text_eq role owner) k.return

  -- The loop over the keys, with the identifiers seen.
  unfoldable pub keys_ok : Text → List Text → List Key → Bool
  keys_ok role seen [] = true
  keys_ok role seen (k ∷ ks) =
      not (refused_key seen k) && secrets_ok role k && keys_ok role (k.id ∷ seen) ks

  unfoldable pub validate : Set → Text → Option Error
  validate s role =
      if refused_phase s
      then some Error.invalid
      else if not (keys_ok role [] (keys s))
      then some Error.invalid
      else if refused_rotation s
      then some Error.invalid
      else if not (known_role role)
      then some Error.invalid
      else none

abbrev only_if : Bool → Text → Text
only_if b secret = if b then secret else []

unfoldable pub sanitize : Text → Key → Key
sanitize role k = record k {
  config_private = only_if (text_eq role control) k.config_private;
  admission_private = only_if (text_eq role coordinator) k.admission_private;
  replay = only_if (text_eq role coordinator) k.replay;
  return = only_if (text_eq role gateway) k.return;
}

abbrev pub over : (Key → Key) → Option Key → Option Key
over f none = none
over f (some k) = some (f k)

unfoldable pub for_role : Set → Text → Set
for_role s role = record s {
  current = sanitize role s.current;
  previous = over (sanitize role) s.previous;
  next = over (sanitize role) s.next;
}

-- `hash` is the hexadecimal SHA-256 of the JSON of a set.
abbrev pub digest : (hash : Set → Text) → Set → Text
digest hash s = hash (for_role s [])

unfoldable pub admission_at : Set → ℤ → Key
admission_at s promoted = elim s.previous [
  | none ↦ s.current
  | some p ↦ if ltb_ℤ promoted s.current.since then p else s.current
]

-- The first key with the identifier.
unfoldable pub find_in : Text → List Key → Option Key
find_in id [] = none
find_in id (k ∷ ks) = let rest = find_in id ks in if text_eq k.id id then some k else rest

abbrev pub find : Set → Text → Option Key
find s id = find_in id (keys s)

unfoldable pub config_trust : Set → List (Text × Text)
config_trust s = map (λ k. (config_kid k, k.config_public)) (keys s)
