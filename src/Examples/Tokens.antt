-- ===== src/Examples/Tokens.antt =====
-- internal/admission/token.go: a token under a toy codec.
use waiting_room.Base.{
  take, take-append, drop-append, ℕ, zero, suc, ap, ◌-◌, ◌+◌, ◌≡◌, refl, arith, true, not, [], ◌∷◌,
  ◌++◌, Option, none, some, ◌==◌, Text, codes, text_eq, text_eq_refl, length, all, drop,
}
use waiting_room.Base.Int.{ℤ, pos, negsuc}
use waiting_room.Admission.Token.{Claims, TokenCodec, sign_token, verify_token}
use waiting_room.Admission.Dates.{IsBound, IsDated}
use waiting_room.Admission.Binding.{
  IsSigned, IsTokenCodec, verify_token-IsBound, verify_token-sign_token,
}

abbrev claims : Claims
claims = record {
  kid = codes "admission-v1";
  room = codes "sale";
  epoch = 1;
  jti = codes "admission:1:1";
  issued = pos 100;
  not_before = pos 100;
  expires = pos 1000;
  audience = codes "gateway";
}

abbrev token_key : Text
token_key = codes "0123456789abcdef0123456789abcdef"

-- A codec for these claims alone, with bytes shifted past the dot for base64.
abbrev shifted : Text → Text
shifted [] = []
shifted (c ∷ t) = (c + 47) ∷ shifted t

abbrev unshifted : Text → Text
unshifted [] = []
unshifted (c ∷ t) = (c - 47) ∷ unshifted t

unshifted-shifted : (t : Text) → unshifted (shifted t) ≡ t
unshifted-shifted [] = refl
unshifted-shifted (c ∷ t) = rw (unshifted-shifted t) (ap (λ d. d ∷ t) (omega arith))

no_dot : (t : Text) → all (λ c. not (c == b'.')) (shifted t) ≡ true
unfolding all
no_dot [] = refl
no_dot (c ∷ t) = ground (arith, no_dot t)

abbrev sign_of : ℤ → ℕ
sign_of (pos n) = 0
sign_of (negsuc n) = 1

abbrev size_of : ℤ → ℕ
size_of (pos n) = n
size_of (negsuc n) = n

abbrev integer : ℕ → ℕ → ℤ
integer zero n = pos n
integer (suc k) n = negsuc n

integer_lem : (i : ℤ) → integer (sign_of i) (size_of i) ≡ i
integer_lem (pos n) = refl
integer_lem (negsuc n) = refl

encode_claims : Claims → Text
encode_claims c =
    length c.kid
    ∷ length c.room
    ∷ length c.jti
    ∷ c.epoch
    ∷ sign_of c.issued
    ∷ size_of c.issued
    ∷ sign_of c.not_before
    ∷ size_of c.not_before
    ∷ sign_of c.expires
    ∷ size_of c.expires
    ∷ (c.kid ++ (c.room ++ (c.jti ++ c.audience)))

decode_claims : Text → Option Claims
decode_claims (k ∷ r ∷ j ∷ epoch ∷ i ∷ i' ∷ n ∷ n' ∷ e ∷ e' ∷ t) = some (record {
  kid = take k t;
  room = take r (drop k t);
  epoch = epoch;
  jti = take j (drop r (drop k t));
  issued = integer i i';
  not_before = integer n n';
  expires = integer e e';
  audience = drop j (drop r (drop k t));
})
decode_claims _ = none

claims_trip : (c : Claims) → decode_claims (encode_claims c) ≡ some c
unfolding decode_claims encode_claims
claims_trip c =
    rw
      (
        take-append c.kid (c.room ++ (c.jti ++ c.audience)),
        drop-append c.kid (c.room ++ (c.jti ++ c.audience)),
      )
      (rw (take-append c.room (c.jti ++ c.audience), drop-append c.room (c.jti ++ c.audience))
        (rw (take-append c.jti c.audience, drop-append c.jti c.audience)
          (rw (integer_lem c.issued, integer_lem c.not_before, integer_lem c.expires) refl)))

-- A signature is the key and the message.
abbrev toy : TokenCodec
toy = record {
  decode_claims = decode_claims;
  encode_claims = encode_claims;
  decode_url = λ t. some (unshifted t);
  encode_url = shifted;
  verify_bytes = λ key message sig. text_eq sig (key ++ message);
  sign_bytes = λ key message. take 32 key ++ message;
}

abbrev signing_key : Text
signing_key = token_key ++ token_key

toy-IsTokenCodec : IsTokenCodec toy signing_key token_key claims
unfolding take
toy-IsTokenCodec = record {
  claims_trip = claims_trip claims;
  payload_trip = ap some (unshifted-shifted (encode_claims claims));
  signature_trip = ap some (unshifted-shifted (token_key ++ shifted (encode_claims claims)));
  url_no_dot = no_dot;
  bytes_trip = λ m. text_eq_refl (token_key ++ m);
}

abbrev payload : Text
payload = shifted (encode_claims claims)

abbrev token : Text
token = payload ++ (codes "." ++ shifted (token_key ++ payload))

bound : IsBound claims (codes "admission-v1") (codes "sale") (codes "gateway") 1 (pos 990) 5
bound = record {
  signer = refl;
  for_room = refl;
  for_audience = refl;
  for_epoch = refl;
  named = λ e. absurd cc;
  from_issue = (omega arith, omega arith);
  positive = omega arith;
  short = omega arith;
  started = omega arith;
  unexpired = omega arith;
}

dated : IsDated claims (pos 990)
dated = record {
  from_1970 = omega arith;
  expires_fits = omega arith;
  now_from_1970 = omega arith;
  now_fits = omega arith;
}

signed_token : sign_token toy signing_key claims ≡ some token
unfolding sign_token take
signed_token = refl

verified :
    verify_token toy token_key token
      (codes "admission-v1")
      (codes "sale")
      (codes "gateway")
      1
      (pos 990)
      (pos 5000000000)
    ≡ some claims
unfolding encode_claims
verified =
    verify_token-sign_token toy signing_key token_key token (codes "admission-v1") (codes "sale")
      (codes "gateway") 1 (pos 990) (pos 5000000000) claims toy-IsTokenCodec refl signed_token
      (omega arith) (omega arith) (omega arith) dated bound

verify_token-sign_token_example :
    verify_token toy token_key token
      (codes "admission-v1")
      (codes "sale")
      (codes "gateway")
      1
      (pos 990)
      (pos 5000000000)
    ≡ some claims
unfolding encode_claims
verify_token-sign_token_example =
    verify_token-sign_token toy signing_key token_key token (codes "admission-v1") (codes "sale")
      (codes "gateway") 1 (pos 990) (pos 5000000000) claims toy-IsTokenCodec refl signed_token
      (omega arith) (omega arith) (omega arith) dated bound

verify_token-IsBound_example :
    IsBound claims (codes "admission-v1") (codes "sale") (codes "gateway") 1 (pos 990) 5
    × IsSigned toy token_key token
verify_token-IsBound_example =
    verify_token-IsBound toy token_key token (codes "admission-v1") (codes "sale") (codes "gateway")
      1 (pos 990) (pos 5000000000) claims dated verified
