-- ===== src/LocalControl/Rotation/Identity.antt =====
-- internal/localcontrol/identity.go: LoadIdentity, and an identity with the keys of its role.
use waiting_room.Base.{
  Bool, true, not, ◌&&◌, ◌||◌, [], none, some, ◌==◌, if◌then◌else◌, Text, codes, text_eq, length,
  Result, ok, err,
}
use waiting_room.Base.Int.{pos, eq_ℤ}
use waiting_room.Keyring.{
  Key, Set, Ed25519, validate, for_role, control, coordinator, gateway, present,
}
use waiting_room.LocalControl.Rotation.{Error, File, NodeIdentity}

-- What the code derives of the owner's state: its binding, the first keys, the gateway's source key.
pub record State : Type 0 where
  pub binding : Text
  pub legacy_keys : Key
  pub public_source : Text

-- writePrivate: done, done but reported as failed (the directory is not synced), or not done.
pub data Write : Type 0 where
  written published failed : Write

-- What the package asks of others: the check of a node's certificate, and Ed25519 with the digest.
pub record Crypto : Type 0 where
  pub ed : Ed25519
  pub hash : Set → Text
  pub tls : Text → Text → Text → Text → Bool

abbrev pub demo_origin : Text
demo_origin = codes "demo-origin"

abbrev pub node_name : Text → Bool
node_name name =
    text_eq name control
    || text_eq name gateway
    || text_eq name coordinator
    || text_eq name demo_origin

-- The identity's own fields are those of the current key.
unfoldable pub agrees : NodeIdentity → Key → Bool
agrees n k =
    text_eq n.config_public k.config_public
    && text_eq n.admission_public k.admission_public
    && text_eq n.config_private k.config_private
    && text_eq n.admission_private k.admission_private
    && text_eq n.replay_key k.replay
    && text_eq n.return_key k.return

unfoldable pub refused_identity : Text → NodeIdentity → Bool
refused_identity name n =
    not (eq_ℤ n.version (pos 1))
    || not (text_eq n.node name)
    || not (text_eq n.installation (codes "local"))
    || not (length n.binding == 64)
    || not (length n.config_public == 32)
    || not (length n.admission_public == 32)

-- The keys of an identity, if it has some.
unfoldable pub keyring_ok : Ed25519 → Text → NodeIdentity → Bool
keyring_ok ed name n = elim n.keys [
  | none ↦ true
  | some s ↦
      not (present (validate ed s name))
      && (if text_eq name gateway then length n.source_key == 32 else length n.source_key == 0)
      && agrees n s.current
]

unfoldable pub load_identity : Crypto → Text → File NodeIdentity → Result Error NodeIdentity
load_identity c name (File.missing) = err Error.missing_file
load_identity c name (File.unreadable) = err Error.unavailable
load_identity c name (File.holds n) =
    if not (node_name name)
      || refused_identity name n
      || not (keyring_ok c.ed name n)
      || not (c.tls n.ca n.certificate n.private_key n.node)
    then err Error.invalid_identity
    else ok n

-- An identity with the keys that its role is given.
unfoldable pub scoped : State → Set → Text → NodeIdentity → NodeIdentity
scoped st s role n =
    let given = for_role s role in
    record n {
      keys = some given;
      config_public = given.current.config_public;
      admission_public = given.current.admission_public;
      config_private = given.current.config_private;
      admission_private = given.current.admission_private;
      replay_key = given.current.replay;
      return_key = given.current.return;
      source_key = if text_eq role gateway then st.public_source else [];
    }
