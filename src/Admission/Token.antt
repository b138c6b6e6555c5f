-- ===== src/Admission/Token.antt =====
-- internal/admission/token.go: signing and verification of admission tokens. JSON, base64 and
-- Ed25519 are the interface TokenCodec, where decode_claims refuses unknown fields and what follows
-- the object. Seconds are signed, and their sums and differences wrap around as int64.
use waiting_room.Base.{
  ℕ, ◌/◌, Bool, not, ◌&&◌, ◌||◌, List, [], ◌∷◌, ◌++◌, Option, none, some, ◌==◌, ltb, if◌then◌else◌,
  Text, codes, text_eq, length,
}
use waiting_room.Base.Int.{ℤ, pos, pos_part, ltb_ℤ, leb_ℤ, ◌+64◌, ◌-64◌}
use waiting_room.Control.Paths.{split}

pub record Claims : Type 0 where
  pub kid : Text
  pub room : Text
  pub epoch : ℕ
  pub jti : Text
  pub issued : ℤ
  pub not_before : ℤ
  pub expires : ℤ
  pub audience : Text

pub record TokenCodec : Type 0 where
  pub decode_claims : Text → Option Claims
  pub encode_claims : Claims → Text
  pub decode_url : Text → Option Text
  pub encode_url : Text → Text
  pub verify_bytes : Text → Text → Text → Bool
  pub sign_bytes : Text → Text → Text

abbrev pub same : ℤ → ℤ → Bool
same a b = leb_ℤ a b && leb_ℤ b a

unfoldable pub refused_claims : Claims → Text → Text → Text → ℕ → ℤ → ℕ → Bool
refused_claims c kid room aud epoch n skew =
    not (text_eq c.kid kid)
    || not (text_eq c.room room)
    || not (text_eq c.audience aud)
    || not (c.epoch == epoch)
    || text_eq c.jti []
    || not (same c.not_before c.issued)
    || leb_ℤ c.expires c.issued
    || ltb_ℤ (pos 3600) (c.expires -64 c.issued)
    || ltb_ℤ (n +64 pos skew) c.not_before
    || leb_ℤ (c.expires +64 pos skew) n

-- The leeway, in nanoseconds, as whole seconds.
abbrev pub skew_of : ℤ → ℕ
skew_of leeway = pos_part leeway / 1000000000

module _ (codec : TokenCodec) where
  -- `none` is ErrInvalid.
  unfoldable pub sign_token : Text → Claims → Option Text
  sign_token key c =
      if not (length key == 64)
      then none
      else (let payload = codec.encode_url (codec.encode_claims c) in
          some (payload ++ (codes "." ++ codec.encode_url (codec.sign_bytes key payload))))

  unfoldable pub verify_claims : (Claims → Bool) → Option Text → Option Claims
  verify_claims refused none = none
  verify_claims refused (some raw) = elim (codec.decode_claims raw) [
    | none ↦ none
    | some c ↦ if refused c then none else some c
  ]

  unfoldable pub verify_parts : Text → (Claims → Bool) → List Text → Option Claims
  verify_parts key refused (payload ∷ signature ∷ []) = elim (codec.decode_url signature) [
    | none ↦ none
    | some sig ↦
        if not (codec.verify_bytes key payload sig)
        then none
        else verify_claims refused (codec.decode_url payload)
  ]
  verify_parts key refused _ = none

  unfoldable pub verify_token : Text → Text → Text → Text → Text → ℕ → ℤ → ℤ → Option Claims
  verify_token key token kid room aud epoch now leeway =
      if not (length key == 32)
        || ltb 2048 (length token)
        || ltb_ℤ leeway (pos 0)
        || ltb_ℤ (pos 30000000000) leeway
      then none
      else verify_parts key (λ c. refused_claims c kid room aud epoch now (skew_of leeway))
          (split b'.' token)
