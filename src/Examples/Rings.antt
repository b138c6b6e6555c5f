-- ===== src/Examples/Rings.antt =====
-- internal/keyring/keyring.go: a ring under a toy signature scheme.
use waiting_room.Base.{
  ◌≡◌, inr, refl, [], ◌∷◌, ◌++◌, none, some, Text, codes, text_eq, all, any, take, drop,
}
use waiting_room.Base.Int.{ℤ, pos}
use waiting_room.Keyring.{
  Key, Set, Ed25519, id_matches, keys, refused_phase, secret_ok, refused_key, refused_rotation,
  private_ok, secrets_ok, keys_ok, validate, for_role, find, gateway, owner,
}
use waiting_room.Keyring.Given.{GivenSet}
use waiting_room.Keyring.Roles.{for_role-validate}
use waiting_room.Keyring.Rotation.{find-keys}

abbrev eight : Text
eight = 1 ∷ 2 ∷ 3 ∷ 4 ∷ 5 ∷ 6 ∷ 7 ∷ 8 ∷ []

abbrev seed : Text
seed = eight ++ (eight ++ (eight ++ eight))

-- A private key is its seed twice, its public key the second half.
abbrev pub toy : Ed25519
toy = record { public_of = drop 32; of_seed = λ s. s ++ s }

abbrev pub key : Text → ℤ → Key
key id since = record {
  id = id;
  since = since;
  config_public = seed;
  admission_public = seed;
  config_private = seed ++ seed;
  admission_private = seed ++ seed;
  replay = seed;
  return = seed;
}

abbrev pub first : Key
first = key (codes "v1") (pos 0)

abbrev pub second : Key
second = key (eight_hex ++ (eight_hex ++ (eight_hex ++ eight_hex))) (pos 500)
  where
    eight_hex : Text
    eight_hex = codes "0123abcd"

abbrev stable : Set
stable = record {
  generation = pos 1;
  phase = codes "stable";
  current = first;
  previous = none;
  next = none;
}

abbrev rotated : Set
rotated = record {
  generation = pos 3;
  phase = codes "active";
  current = second;
  previous = some first;
  next = none;
}

valid_ring : validate toy rotated owner ≡ none
unfolding id_matches keys refused_phase secret_ok refused_key refused_rotation private_ok secrets_ok
    keys_ok validate text_eq all any take drop
valid_ring = refl

for_role-validate_example :
    (validate toy (for_role rotated gateway) gateway ≡ none)
    × GivenSet {role = gateway} (inr (inr refl)) rotated (for_role rotated gateway)
for_role-validate_example = for_role-validate toy rotated gateway (inr (inr refl)) valid_ring

find-keys_example : find rotated (codes "v1") ≡ some first
unfolding keys
find-keys_example = find-keys toy rotated owner (second ∷ []) first [] valid_ring refl
