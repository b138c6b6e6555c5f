-- ===== src/Trust/Gate/Publication.antt =====
-- internal/configtrust/snapshot.go: what `Sign` makes, `Apply` accepts.
use waiting_room.Base.{
  Option, ℕ, ◌≤◌, ◌<◌, ◌≡◌, refl, ap, ◌∙◌, Bool, true, false, ◌++◌, some, Text, text_eq_refl,
  text_eq_iff, length, lookup, ok, arith,
}
use waiting_room.Trust.Codec.{
  strict, Codec, Snapshot, Envelope, structural, sign, domain, max_snapshot_bytes, public_key_size,
}
use waiting_room.Trust.Gate.{
  Gate, or_nil, verify, verify_decoded, verify_signed, clock, accept, apply_verified, apply,
  current,
}
use waiting_room.Trust.Gate.Cases.{ticked, holding, Replaces}

-- What `Sign` puts into the envelope of a snapshot.
abbrev signature_of : Codec → Text → Snapshot → Text
signature_of codec private s = codec.sign_message private (domain ++ codec.encode_snapshot s)

abbrev pub signed_bytes : Codec → Text → Snapshot → Envelope
signed_bytes codec private s = record {
  snapshot = codec.encode_snapshot s;
  signature = codec.encode_base64 (signature_of codec private s);
}

-- What the code relies on of Go's packages, for the holder of a private key, at one snapshot. Its JSON
-- is decoded as the snapshot, which encoding/json promises of strings that are valid UTF-8 and of a
-- payload that is compact and escaped as json.Marshal writes it; the bytes of a JSON value that
-- json.Marshal made are kept in the envelope as they are.
pub record Lawful (codec : Codec) (private public : Text) (s : Snapshot) : Type 0 where
  pub envelope_trip :
      codec.decode_envelope (codec.encode_envelope (signed_bytes codec private s))
      ≡ some (signed_bytes codec private s)
  pub envelope_bytes : 0 < length (codec.encode_envelope (signed_bytes codec private s))
  pub snapshot_trip : codec.decode_snapshot (codec.encode_snapshot s) ≡ some s
  pub base64_trip :
      codec.decode_base64 (codec.encode_base64 (signature_of codec private s))
      ≡ some (signature_of codec private s)
  pub signature_trip :
      codec.verify_signature public
        (domain ++ codec.encode_snapshot s)
        (signature_of codec private s)
      ≡ true

-- The gate trusts the signer of the snapshot, and the snapshot is for it.
pub record Addressed (validate : Text → Bool) (public : Text) (s : Snapshot) (g : Gate)
    : Type 0 where
  pub trusted : lookup s.kid g.keys ≡ some public
  pub key_size : length public ≡ public_key_size
  pub installed : s.installation ≡ g.installation
  pub recent : g.minimum ≤ s.generation
  pub valid : validate s.payload ≡ true

strict_trip :
    {A : Type 0} (decode : Text → Option A) (encode : A → Text) (v : A)
    → decode (encode v) ≡ some v
    → strict decode encode (encode v) ≡ some v
unfolding strict
strict_trip decode encode v e = rw (e, strict) (rw (text_eq_refl (encode v)) refl)

module _ (codec : Codec) (validate : Text → Bool) (private public : Text) where
  sign_ok :
      (s : Snapshot) {raw : Text}
      → sign codec private s ≡ some raw
      → (structural codec s ≡ true)
        × (length raw ≤ max_snapshot_bytes)
        × (raw ≡ codec.encode_envelope (signed_bytes codec private s))
  unfolding sign
  sign_ok s e = ground arith

  verify_signed-sign :
      (s : Snapshot) (g : Gate)
      → Lawful codec private public s
      → Addressed validate public s g
      → verify_signed codec validate g (signed_bytes codec private s) s ≡ ok s
  unfolding verify_signed
  verify_signed-sign s g l a =
      let message = domain ++ codec.encode_snapshot s in
      let sig = codec.sign_message private message in
      rw (l.base64_trip, verify_signed)
        (ground
          (arith, text_eq_refl (codec.encode_base64 sig), l.signature_trip, ap or_nil a.trusted))

  verify-sign :
      (s : Snapshot) (g : Gate) {raw : Text}
      → Lawful codec private public s
      → Addressed validate public s g
      → sign codec private s ≡ some raw
      → verify codec validate g raw ≡ ok s
  unfolding verify verify_decoded
  verify-sign s g {raw} l a e =
      let (fits, short, bytes) = sign_ok s e in
      let long = l.envelope_bytes in
      let parsed : strict codec.decode_envelope codec.encode_envelope raw
          ≡ some (signed_bytes codec private s) =
        ap (strict codec.decode_envelope codec.encode_envelope) bytes
        ∙ strict_trip codec.decode_envelope codec.encode_envelope (signed_bytes codec private s)
            l.envelope_trip in
      let size = ap length bytes in
      rw (parsed, verify)
        (rw
          (
            strict_trip codec.decode_snapshot codec.encode_snapshot s l.snapshot_trip,
            verify_decoded,
          )
          (ground (arith, verify_signed-sign s g l a, text_eq_iff s.installation g.installation)))

  apply_ok :
      (now : ℕ) (s : Snapshot) (g : Gate) (raw : Text)
      → verify codec validate (ticked now g) raw ≡ ok s
      → Replaces now s g
      → g.failed ≡ false
      → g.last_clock ≤ now
      → apply codec validate true now raw g ≡ (holding raw s (ticked now g), ok tt)
  unfolding apply clock apply_verified accept
  apply_ok now s g raw good r up on = ground arith

  current_holding :
      (now : ℕ) (s : Snapshot) (g : Gate) (raw : Text)
      → Replaces now s g
      → g.failed ≡ false
      → current codec validate now (holding raw s (ticked now g))
        ≡ (holding raw s (ticked now g), ok s)
  unfolding current clock
  current_holding now s g raw r up = ground arith

  -- The round trip of a publication, under the codec's laws at the snapshot: what the key's holder signs, a gate
  -- that trusts the key, has not failed and sees no clock below its last one takes, when it is
  -- addressed to the gate, timely, newer and saved, and then serves exactly that snapshot.
  pub apply-sign :
      (now : ℕ) (s : Snapshot) (g : Gate) {raw : Text}
      → Lawful codec private public s
      → Addressed validate public s g
      → Replaces now s g
      → g.failed ≡ false
      → g.last_clock ≤ now
      → sign codec private s ≡ some raw
      → let g' = (apply codec validate true now raw g).0 in
        ((apply codec validate true now raw g).1 ≡ ok tt)
        × (current codec validate now g' ≡ (g', ok s))
  apply-sign now s g {raw} l a r up on e =
      let good = verify-sign s (ticked now g) l (ground arith) e in
      rw (apply_ok now s g raw good r up on) (refl, current_holding now s g raw r up)
