-- ===== src/Trust/Codec.antt =====
-- internal/configtrust/snapshot.go: snapshots, their structural check, and what the gate takes from
-- Go's JSON, base64, SHA-256 and Ed25519 packages.
use waiting_room.Base.{
  text_eq, ℕ, ◌-◌, Bool, false, ◌&&◌, ◌||◌, not, [], ◌∷◌, ◌++◌, Option, none, some, leb, ltb, ◌==◌,
  if◌then◌else◌, Text, codes, length, all, within,
}

pub record Snapshot : Type 0 where
  pub schema_version : ℕ
  pub installation : Text
  pub generation : ℕ
  pub revision : ℕ
  pub issued_at : ℕ
  pub expires_at : ℕ
  pub kid : Text
  pub payload : Text

pub record Envelope : Type 0 where
  pub snapshot : Text
  pub signature : Text

pub record ClockRecovery : Type 0 where
  pub generation : ℕ
  pub not_before : ℕ
  pub digest : Text

-- Operations of Go's packages. `decode_envelope` and `decode_snapshot` are the JSON decoder at the
-- two types, without unknown fields and up to the end of the input.
pub record Codec : Type 0 where
  pub decode_envelope : Text → Option Envelope
  pub encode_envelope : Envelope → Text
  pub decode_snapshot : Text → Option Snapshot
  pub encode_snapshot : Snapshot → Text
  pub json_valid : Text → Bool
  pub decode_base64 : Text → Option Text
  pub encode_base64 : Text → Text
  pub verify_signature : Text → Text → Text → Bool
  pub sign_message : Text → Text → Text
  pub digest : Text → Text

-- What is decoded, if it is encoded as the same bytes.
unfoldable pub strict {ℓ} : {A : Type ℓ} → (Text → Option A) → (A → Text) → Text → Option A
strict decode encode raw = elim (decode raw) [
  | none ↦ none
  | some v ↦ if text_eq (encode v) raw then some v else none
]

abbrev pub max_snapshot_bytes : ℕ
max_snapshot_bytes = 65536

abbrev pub public_key_size : ℕ
public_key_size = 32

abbrev pub private_key_size : ℕ
private_key_size = 64

-- "waiting-room-config/v1\x00"
unfoldable pub domain : Text
domain = codes "waiting-room-config/v1" ++ 0 ∷ []

-- A character of `[a-zA-Z0-9_-]`.
abbrev pub is_safe : ℕ → Bool
is_safe c = within b'a' b'z' c || within b'A' b'Z' c || within b'0' b'9' c || c == b'_' || c == b'-'

-- `^[a-zA-Z0-9_-]{1,80}$`
unfoldable pub safe_name : Text → Bool
safe_name s = within 1 80 (length s) && all is_safe s

abbrev pub opens_object : Text → Bool
opens_object (c ∷ d ∷ cs) = c == b'{'
opens_object _ = false

unfoldable pub structural : Codec → Snapshot → Bool
structural codec s =
    s.schema_version == 1
    && safe_name s.installation
    && safe_name s.kid
    && ltb 0 s.generation
    && leb s.generation 9007199254740991
    && leb s.revision 9007199254740991
    && ltb 0 s.issued_at
    && leb s.issued_at 253402214399
    && ltb s.issued_at s.expires_at
    && leb (s.expires_at - s.issued_at) 86400
    && opens_object s.payload
    && codec.json_valid s.payload

-- What the key's holder publishes; `none` is `ErrInvalid`.
unfoldable pub sign : Codec → Text → Snapshot → Option Text
sign codec key s =
    if not (length key == private_key_size) || not (structural codec s)
    then none
    else (let raw = codec.encode_snapshot s in
        let out = codec.encode_envelope (record {
          snapshot = raw;
          signature = codec.encode_base64 (codec.sign_message key (domain ++ raw));
        }) in
        if ltb max_snapshot_bytes (length out) then none else some out)
