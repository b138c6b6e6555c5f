-- ===== src/Admission/Binding.antt =====
-- internal/admission/token.go: what a token that verifies is bound to, and that signed ones verify.
use waiting_room.Base.{
  ℕ, ◌≤◌, ◌≡◌, refl, ap, ◌∙◌, subst, arith, Bool-cases, Option-cases, inl, inr, Bool, true, false,
  not, ◌||◌, List, [], ◌∷◌, ◌++◌, Option, none, some, ◌==◌, ltb, Text, length, all,
}
use waiting_room.Base.Int.{ℤ, pos, negsuc, ltb_ℤ, ◌≤ℤ◌}
use waiting_room.Control.Paths.{split}
use waiting_room.Admission.Dates.{IsBound, IsDated, refused-IsBound, IsBound-refused}
use waiting_room.Admission.Token.{
  Claims, TokenCodec, refused_claims, skew_of, sign_token, verify_claims, verify_parts,
  verify_token,
}

-- Text without the separator is one part.
split_one : (sep : ℕ) (p : Text) → all (λ c. not (c == sep)) p ≡ true → split sep p ≡ p ∷ []
unfolding split all
split_one sep [] h = refl
split_one sep (c ∷ p) h = rw (split_one sep p (ground arith)) (ground arith)

split_two :
    (sep : ℕ) (p q : Text)
    → all (λ c. not (c == sep)) p ≡ true
    → all (λ c. not (c == sep)) q ≡ true
    → split sep (p ++ (sep ∷ q)) ≡ p ∷ q ∷ []
unfolding split all
split_two sep [] q h k = rw (split_one sep q k) (ground arith)
split_two sep (c ∷ p) q h k = rw (split_two sep p q (ground arith) k) (ground arith)

module _ (codec : TokenCodec) where
  claims_sound :
      (refused : Claims → Bool) (o : Option Text) (c : Claims)
      → verify_claims codec refused o ≡ some c
      → refused c ≡ false
  unfolding verify_claims
  claims_sound refused none c h = absurd cc
  claims_sound refused (some raw) c h = elim (Option-cases (codec.decode_claims raw)) [
    | inl none' ↦ absurd (ground arith)
    | inr (d, some') ↦ elim (Bool-cases (refused d)) [
      | inl bad ↦ absurd (ground arith)
      | inr good ↦ subst (λ x. refused x ≡ false) (ground arith) good
    ]
  ]

  -- The signature that a verified token carries.
  abbrev pub IsSigned : Text → Text → Type 0
  IsSigned key token =
      (payload : Text) × (signature : Text) × (sig : Text) × (split b'.' token
        ≡ payload ∷ signature ∷ [])
      × (codec.decode_url signature ≡ some sig)
      × (codec.verify_bytes key payload sig ≡ true)

  parts_sound :
      (key token : Text) (refused : Claims → Bool) (parts : List Text) (c : Claims)
      → split b'.' token ≡ parts
      → verify_parts codec key refused parts ≡ some c
      → (refused c ≡ false) × IsSigned key token
  unfolding verify_parts
  parts_sound key token refused [] c e h = absurd cc
  parts_sound key token refused (p ∷ []) c e h = absurd cc
  parts_sound key token refused (p ∷ s ∷ r ∷ ps) c e h = absurd cc
  parts_sound key token refused (p ∷ s ∷ []) c e h = elim (Option-cases (codec.decode_url s)) [
    | inl none' ↦ absurd (ground arith)
    | inr (sig, some') ↦ elim (Bool-cases (codec.verify_bytes key p sig)) [
      | inl good ↦
          (claims_sound refused (codec.decode_url p) c (ground arith), (p, s, sig, e, some', good))
      | inr bad ↦ absurd (ground arith)
    ]
  ]

  verify_token_parts :
      (key token kid room aud : Text) (epoch : ℕ) (now leeway : ℤ) (c : Claims)
      → verify_token codec key token kid room aud epoch now leeway ≡ some c
      → verify_parts codec key
          (λ d. refused_claims d kid room aud epoch now (skew_of leeway))
          (split b'.' token)
        ≡ some c
  unfolding verify_token
  verify_token_parts key token kid room aud epoch now leeway c h = ground arith

  few : (leeway : ℤ) → leeway ≤ℤ pos 30000000000 → skew_of leeway ≤ 30
  few (pos n) high = omega arith
  few (negsuc n) high = omega arith

  -- A leeway that is taken is of thirty seconds at most.
  small_leeway :
      (key token kid room aud : Text) (epoch : ℕ) (now leeway : ℤ) (c : Claims)
      → verify_token codec key token kid room aud epoch now leeway ≡ some c
      → skew_of leeway ≤ 30
  unfolding verify_token
  small_leeway key token kid room aud epoch now leeway c h = few leeway (ground arith)

  -- Where the dates of its claims are int64 values from 1970 on and the verifier's time lies between 1970
  -- and second 2^62, a token that verifies carries a signature of its payload by the key, and its
  -- claims name the kid, the room, the audience and the epoch that were asked for and an identifier;
  -- it lasts an hour at most, and the time lies within it, give or take the leeway.
  pub verify_token-IsBound :
      (key token kid room aud : Text) (epoch : ℕ) (now leeway : ℤ) (c : Claims)
      → IsDated c now
      → verify_token codec key token kid room aud epoch now leeway ≡ some c
      → IsBound c kid room aud epoch now (skew_of leeway) × IsSigned key token
  verify_token-IsBound key token kid room aud epoch now leeway c d h =
      let refused = λ (d : Claims). refused_claims d kid room aud epoch now (skew_of leeway) in
      let (fine, signed) =
        parts_sound key token refused (split b'.' token) c refl
          (verify_token_parts key token kid room aud epoch now leeway c h) in
      (
        refused-IsBound c kid room aud epoch now (skew_of leeway) d
            (small_leeway key token kid room aud epoch now leeway c h) fine,
        signed,
      )

  -- What the code relies on of Go's packages, for a private and a public key, at given claims: that
  -- their JSON is decoded as they are, which encoding/json promises of texts that are valid UTF-8 and
  -- numbers within their types, and the round trips of base64 and of signatures.
  pub record IsTokenCodec (private public : Text) (c : Claims) : Type 0 where
    pub claims_trip : codec.decode_claims (codec.encode_claims c) ≡ some c
    pub payload_trip :
        codec.decode_url (codec.encode_url (codec.encode_claims c)) ≡ some (codec.encode_claims c)
    pub signature_trip :
        let sig = codec.sign_bytes private (codec.encode_url (codec.encode_claims c)) in
        codec.decode_url (codec.encode_url sig) ≡ some sig
    pub url_no_dot : (t : Text) → all (λ c. not (c == b'.')) (codec.encode_url t) ≡ true
    pub bytes_trip : (m : Text) → codec.verify_bytes public m (codec.sign_bytes private m) ≡ true

  sign_token_bytes :
      (private token : Text) (c : Claims)
      → sign_token codec private c ≡ some token
      → let payload = codec.encode_url (codec.encode_claims c) in
        token ≡ payload ++ (b'.' ∷ codec.encode_url (codec.sign_bytes private payload))
  unfolding sign_token
  sign_token_bytes private token c e = ground arith

  -- Under the codec's laws at the claims, what is signed for them verifies under the public key of 32
  -- bytes as those claims, if the token is not above 2,048 bytes, the leeway is between nothing and
  -- thirty seconds, the dates are int64 values from 1970 on, the verifier's time lies between 1970 and
  -- second 2^62, and the claims say what they must to the verifier at the time.
  pub verify_token-sign_token :
      (private public token kid room aud : Text) (epoch : ℕ) (now leeway : ℤ) (c : Claims)
      → IsTokenCodec private public c
      → length public ≡ 32
      → sign_token codec private c ≡ some token
      → length token ≤ 2048
      → pos 0 ≤ℤ leeway
      → leeway ≤ℤ pos 30000000000
      → IsDated c now
      → IsBound c kid room aud epoch now (skew_of leeway)
      → verify_token codec public token kid room aud epoch now leeway ≡ some c
  unfolding verify_token verify_parts verify_claims
  verify_token-sign_token private public token kid room aud epoch now leeway c laws size e fits low
        high d b =
      let payload = codec.encode_url (codec.encode_claims c) in
      let sig = codec.sign_bytes private payload in
      let bytes = sign_token_bytes private token c e in
      let parts : split b'.' token ≡ payload ∷ codec.encode_url sig ∷ [] =
        ap (split b'.') bytes
        ∙ split_two b'.' payload (codec.encode_url sig) (laws.url_no_dot (codec.encode_claims c))
            (laws.url_no_dot sig) in
      let fine = IsBound-refused c kid room aud epoch now (skew_of leeway) d (few leeway high) b in
      let guard : (not (length public == 32)
            || ltb 2048 (length token)
            || ltb_ℤ leeway (pos 0)
            || ltb_ℤ (pos 30000000000) leeway)
          ≡ false =
        ground arith in
      rw guard (
        rw parts (
          rw (laws.signature_trip, verify_parts)
            (rw (laws.bytes_trip payload)
              (rw (laws.payload_trip, verify_claims) (rw (laws.claims_trip) (rw fine refl))))))
