-- ===== src/Examples/Rotations.antt =====
-- internal/localcontrol/rotation.go: an installation with staged keys.
use waiting_room.Base.{
  ◌≡◌, ◌⊎◌, refl, arith, true, List, [], ◌∷◌, none, some, Text, codes, text_eq, text_eq, all, any,
  take, drop, count, ok,
}
use waiting_room.Base.Int.{pos}
use waiting_room.Keyring.{
  Set, id_matches, keys, refused_phase, secret_ok, refused_key, refused_rotation, private_ok,
  secrets_ok, keys_ok, validate, owner, for_role, sanitize,
}
use waiting_room.LocalControl.Rotation.{
  Operation, File, Disk, NodeIdentity, Files, Database, Clock, rotation_report, acknowledges,
  acks_of,
}
use waiting_room.LocalControl.Rotation.Calls.{Role, name_of, rotate_keys}
use waiting_room.LocalControl.Rotation.Identity.{
  State, Write, Crypto, scoped, load_identity, refused_identity, keyring_ok, agrees,
}
use waiting_room.LocalControl.Rotation.Overlap.{History, History-trusted}
use waiting_room.LocalControl.Rotation.Distribution.{AllLoad}
use waiting_room.LocalControl.Rotation.Repair.{rotate_keys-AllLoad, rotate_keys_repairs}
use waiting_room.LocalControl.Rotation.Complete.{IsComplete, rotate_keys-IsComplete}
use waiting_room.Examples.Rings.{toy, first, second}
use waiting_room.Auth.Store.{Commit}

abbrev sixty_four : Text
sixty_four = codes "0123456789abcdef0123456789abcdef0123456789abcdef0123456789abcdef"

abbrev crypto : Crypto
crypto = record { ed = toy; hash = λ s. sixty_four; tls = λ a b c d. true }

abbrev state : State
state = record { binding = sixty_four; legacy_keys = first; public_source = first.replay }

abbrev staged : Set
staged = record {
  generation = pos 1;
  phase = codes "staged";
  current = first;
  previous = none;
  next = some second;
}

abbrev disk : Disk
disk = record { binding = sixty_four; keys = staged; before = sixty_four }

abbrev bare : Text → NodeIdentity
bare name = record {
  keys = none;
  source_key = [];
  version = pos 1;
  installation = codes "local";
  binding = sixty_four;
  node = name;
  ca = [];
  certificate = [];
  private_key = [];
  config_public = first.config_public;
  admission_public = first.admission_public;
  config_private = [];
  admission_private = [];
  replay_key = [];
  return_key = [];
}

abbrev identity : Role → File NodeIdentity
identity r = File.holds (scoped state staged (name_of r) (bare (name_of r)))

abbrev files : Files
files = record {
  journal = File.holds disk;
  control_file = identity Role.control_role;
  gateway_file = identity Role.gateway_role;
  coordinator_file = identity Role.coordinator_role;
}

abbrev clock : Clock
clock = record { now = 2000000000; acks_at = 2000000000; audit_at = 2000000000 }

abbrev database : Database
database = record {
  key_binding = some sixty_four;
  key_acks =
      record {
        node_id = codes "gateway";
        generation = pos 1;
        digest = sixty_four;
        observed_at = 1999000000;
      }
      ∷ record {
        node_id = codes "coordinator";
        generation = pos 1;
        digest = sixty_four;
        observed_at = 1999000000;
      }
      ∷ [];
  control_nodes =
      record { node_id = codes "gateway"; generation = pos 7 }
      ∷ record { node_id = codes "coordinator"; generation = pos 7 }
      ∷ [];
  delivery_generation = some (pos 7);
  control_audit = [];
  key_operations = [];
  key_audit = [];
}

-- Both ACKs count.
acknowledged : acks_of toy (λ s. sixty_four) database staged 2000000000 ≡ 2
unfolding acks_of acknowledges text_eq any count
acknowledged = refl

valid_staged : validate toy staged owner ≡ none
unfolding id_matches keys refused_phase secret_ok refused_key refused_rotation private_ok secrets_ok
    keys_ok validate text_eq all any take drop
valid_staged = refl

loads : AllLoad crypto files
unfolding load_identity refused_identity keyring_ok agrees scoped for_role sanitize id_matches keys
    refused_phase secret_ok refused_key refused_rotation private_ok secrets_ok keys_ok validate
    text_eq all any take drop
loads Role.control_role = refl
loads Role.gateway_role = refl
loads Role.coordinator_role = refl

-- The write of the gateway's file fails after that of the journal and of the control file.
abbrev interrupted : List Write
interrupted = Write.written ∷ Write.written ∷ Write.failed ∷ []

abbrev after : Files
after =
    (rotate_keys crypto state Operation.activate clock none interrupted Commit.committed files
      database).0

History-trusted_example :
    (d : Disk) × (after.journal ≡ File.holds d)
    × ((d.keys.current ≡ first) ⊎ (d.keys.previous ≡ some first))
History-trusted_example =
    History-trusted crypto state 1000 files disk 2000 after refl
      (History.call Operation.activate clock none interrupted Commit.committed database
        History.start (λ e. cc) (omega arith))
      (omega arith)

rotate_keys-IsComplete_example :
    IsComplete crypto
      (rotate_keys crypto state Operation.activate clock none [] Commit.committed files database)
rotate_keys-IsComplete_example =
    rotate_keys-IsComplete crypto state Operation.activate clock none [] Commit.committed files
      database (λ e. cc)

rotate_keys-AllLoad_example : AllLoad crypto after
rotate_keys-AllLoad_example =
    rotate_keys-AllLoad crypto state Operation.activate clock none interrupted Commit.committed
      files database refl loads

rotate_keys_repairs_example :
    ((rotate_keys crypto state Operation.stage clock none [] Commit.committed files database).2
      ≡ ok (rotation_report toy (λ s. sixty_four) staged 0))
    × ((rotate_keys crypto state Operation.stage clock none [] Commit.committed files
          database).0.journal
        ≡ File.holds disk)
rotate_keys_repairs_example =
    rotate_keys_repairs crypto state Operation.stage clock none files database disk refl refl refl
      refl valid_staged refl loads refl
