-- ===== src/Examples/Gates.antt =====
-- internal/configtrust/snapshot.go: a gate under a toy codec.
use waiting_room.Base.{
  take-append, drop-append, ℕ, ◌≤◌, ◌<◌, ◌≡◌, inl, refl, arith, Bool, true, false, List, [], ◌∷◌,
  ◌++◌, Option, none, some, Text, codes, text_eq, text_eq_refl, lookup, ok, err, take, drop, length,
  all,
}
use waiting_room.Trust.Codec.{
  strict, Snapshot, Envelope, Codec, domain, sign, structural, safe_name,
}
use waiting_room.Trust.Gate.{
  Error, Reason, Gate, zero_snapshot, verify, verify_decoded, verify_signed, clock, accept,
  apply_verified, apply, current, recovery_request, step, run,
}
use waiting_room.Trust.Gate.Cases.{quarantined, ticked, Replaces}
use waiting_room.Trust.Gate.Safety.{Advances, run-Advances, current_trusted}
use waiting_room.Trust.Gate.Quarantine.{Release, rollback_retires, released_by_publication}
use waiting_room.Trust.Gate.Latch.{unsaved_latches}
use waiting_room.Trust.Gate.Publication.{Lawful, signed_bytes, Addressed, apply-sign}

-- Text as its length and itself.
abbrev framed : Text → Text
framed t = length t ∷ t

encode_envelope : Envelope → Text
encode_envelope e = framed e.snapshot ++ e.signature

decode_envelope : Text → Option Envelope
decode_envelope [] = none
decode_envelope (n ∷ t) = some (record { snapshot = take n t; signature = drop n t })

encode_snapshot : Snapshot → Text
encode_snapshot s =
    s.schema_version
    ∷ s.generation
    ∷ s.revision
    ∷ s.issued_at
    ∷ s.expires_at
    ∷ length s.kid
    ∷ length s.installation
    ∷ (s.kid ++ (s.installation ++ s.payload))

decode_snapshot : Text → Option Snapshot
decode_snapshot (v ∷ g ∷ r ∷ i ∷ e ∷ k ∷ n ∷ t) = some (record {
  schema_version = v;
  installation = take n (drop k t);
  generation = g;
  revision = r;
  issued_at = i;
  expires_at = e;
  kid = take k t;
  payload = drop n (drop k t);
})
decode_snapshot _ = none

-- A signature is the first 32 bytes of its key and the message.
abbrev toy : Codec
toy = record {
  decode_envelope = decode_envelope;
  encode_envelope = encode_envelope;
  decode_snapshot = decode_snapshot;
  encode_snapshot = encode_snapshot;
  json_valid = λ t. true;
  decode_base64 = λ t. some t;
  encode_base64 = λ t. t;
  verify_signature = λ public message signature. text_eq signature (public ++ message);
  sign_message = λ key message. take 32 key ++ message;
  digest = λ t. t;
}

envelope_trip : (e : Envelope) → decode_envelope (encode_envelope e) ≡ some e
unfolding decode_envelope encode_envelope
envelope_trip e = rw (take-append e.snapshot e.signature, drop-append e.snapshot e.signature) refl

snapshot_trip : (s : Snapshot) → decode_snapshot (encode_snapshot s) ≡ some s
unfolding decode_snapshot encode_snapshot
snapshot_trip s =
    rw
      (
        take-append s.kid (s.installation ++ s.payload),
        drop-append s.kid (s.installation ++ s.payload),
      )
      (rw (take-append s.installation s.payload, drop-append s.installation s.payload) refl)

abbrev eight : Text
eight = 1 ∷ 2 ∷ 3 ∷ 4 ∷ 5 ∷ 6 ∷ 7 ∷ 8 ∷ []

abbrev public' : Text
public' = eight ++ (eight ++ (eight ++ eight))

abbrev private' : Text
private' = public' ++ public'

abbrev publication : Snapshot
publication = record {
  schema_version = 1;
  installation = codes "lab";
  generation = 7;
  revision = 2;
  issued_at = 100;
  expires_at = 200;
  kid = codes "v1";
  payload = codes "{}";
}

toy-Lawful : Lawful toy private' public' publication
unfolding take encode_envelope
toy-Lawful = record {
  envelope_trip = envelope_trip (signed_bytes toy private' publication);
  envelope_bytes = omega arith;
  snapshot_trip = snapshot_trip publication;
  base64_trip = refl;
  signature_trip = text_eq_refl (public' ++ (domain ++ encode_snapshot publication));
}

abbrev published : Text
published = encode_envelope (record {
  snapshot = encode_snapshot publication;
  signature = public' ++ (domain ++ encode_snapshot publication);
})

-- A gate that holds nothing yet.
abbrev gate : Gate
gate = record {
  keys = (codes "v1", public') ∷ [];
  installation = codes "lab";
  minimum = 1;
  current = zero_snapshot;
  raw = [];
  last_clock = 50;
  clock_hold = false;
  recovery_after = 0;
  failed = false;
  failure_reason = Reason.fine;
}

abbrev accepts : Text → Bool
accepts t = true

signed : sign toy private' publication ≡ some published
unfolding sign structural safe_name encode_envelope encode_snapshot domain take all text_eq
signed = refl

addressed : Addressed accepts public' publication gate
unfolding lookup text_eq
addressed = record {
  trusted = refl;
  key_size = refl;
  installed = refl;
  recent = omega arith;
  valid = refl;
}

replaces : Replaces 120 publication gate
replaces = record {
  started = omega arith;
  unexpired = omega arith;
  newer = omega arith;
  revised = omega arith;
  released = inl refl;
}

apply-sign_example :
    let g' = (apply toy accepts true 120 published gate).0 in
    ((apply toy accepts true 120 published gate).1 ≡ ok tt)
    × (current toy accepts 120 g' ≡ (g', ok publication))
apply-sign_example =
    apply-sign toy accepts private' public' 120 publication gate {raw = published} toy-Lawful
      addressed replaces refl (omega arith) signed

-- The gate with the publication, and after its clock went back.
abbrev serving : Gate
serving = record gate { current = publication; raw = published; last_clock = 120 }

abbrev held : Gate
held = quarantined serving

abbrev next_publication : Snapshot
next_publication = record publication { generation = 8; issued_at = 130 }

abbrev next_published : Text
next_published = encode_envelope (record {
  snapshot = encode_snapshot next_publication;
  signature = public' ++ (domain ++ encode_snapshot next_publication);
})

run-Advances_example :
    Advances gate (run toy accepts ((true, 120, some published) ∷ (true, 90, none) ∷ []) gate)
run-Advances_example =
    run-Advances toy accepts ((true, 120, some published) ∷ (true, 90, none) ∷ []) gate

current_trusted_example :
    let g = run toy accepts ((true, 120, some published) ∷ []) gate in
    let g' = (current toy accepts 150 g).0 in
    (verify toy accepts g' g'.raw ≡ ok publication)
    × (100 ≤ 150)
    × (150 < 200)
    × (g'.failed ≡ false)
    × (g'.clock_hold ≡ false)
unfolding run step apply apply_verified accept clock current verify verify_decoded verify_signed
    lookup decode_envelope encode_envelope decode_snapshot strict encode_snapshot structural
    safe_name domain take drop all text_eq
current_trusted_example =
    current_trusted toy accepts ((true, 120, some published) ∷ []) gate 150
      {g = (current toy accepts 150 (run toy accepts ((true, 120, some published) ∷ []) gate)).0}
      {s = publication} (inl refl) refl

released_by_publication_example :
    Release toy accepts
      (true, 140, some next_published)
      held
      (step toy accepts (true, 140, some next_published) held)
unfolding step apply apply_verified accept clock verify verify_decoded verify_signed lookup
    decode_envelope encode_envelope decode_snapshot strict encode_snapshot structural safe_name
    domain take drop all text_eq
released_by_publication_example =
    released_by_publication toy accepts (true, 140, some next_published) held refl refl

-- The clock goes back by a second, and a publication of the next generation follows.
abbrev recovery : List (Bool × ℕ × Option Text)
recovery = (true, 140, some next_published) ∷ []

rollback_retires_example : 7 < 8
unfolding run step apply apply_verified accept clock current verify verify_decoded verify_signed
    lookup decode_envelope encode_envelope decode_snapshot strict encode_snapshot structural
    safe_name domain take drop all text_eq
rollback_retires_example =
    rollback_retires toy accepts (true, 119, none) recovery 150 serving
      {h = (current toy accepts 150 (run toy accepts ((true, 119, none) ∷ recovery) serving)).0}
      {s = next_publication} refl (omega arith) refl

good_publication : verify toy accepts (ticked 120 gate) published ≡ ok publication
unfolding verify verify_decoded verify_signed lookup decode_envelope encode_envelope decode_snapshot
    strict encode_snapshot structural safe_name domain take drop all text_eq
good_publication = refl

unsaved_latches_example :
    let r = apply toy accepts false 120 published gate in
    let h = run toy accepts ((true, 130, some next_published) ∷ []) r.0 in
    (r.1 ≡ err Error.persistence)
    × (h.current ≡ zero_snapshot)
    × (h.raw ≡ [])
    × (current toy accepts 140 h ≡ (h, err Error.unavailable))
    × (apply toy accepts true 140 published h ≡ (h, err Error.unavailable))
    × (recovery_request toy accepts h ≡ none)
unsaved_latches_example =
    unsaved_latches toy accepts 120 140 publication gate published published true
      ((true, 130, some next_published) ∷ []) good_publication replaces refl (omega arith)
