-- ===== src/Auth/Totp.antt =====
-- internal/adminauth/totp.go: the match of a code and its one use. HMAC-SHA1 is an argument; the
-- counter store is the interface CounterStore, a change of state with `none` for its error. The
-- time is in Unix seconds.
use waiting_room.Base.{
  ℕ, zero, suc, ◌+◌, ◌-◌, ◌*◌, ◌/◌, ◌%◌, ◌^◌, Bool, true, false, not, ◌&&◌, ◌||◌, List, [], ◌∷◌,
  ◌++◌, Option, none, some, ◌==◌, ltb, if◌then◌else◌, Text, text_eq, decimal, length, take, drop,
  all, within, Result, ok, err,
}
use waiting_room.Base.Int.{ℤ, pos, negsuc}

pub data TotpError : Type 0 where
  invalid_or_replayed auth_unavailable : TotpError

abbrev pub totp_period : ℕ
totp_period = 30

abbrev pub totp_digits : ℕ
totp_digits = 6

pub record Secret : Type 0 where
  pub key : Text
  pub valid : Bool

pub record CredentialRef : Type 0 where
  pub user_id : Text
  pub version : ℕ

abbrev ref_byte : ℕ → Bool
ref_byte c =
    within b'a' b'z' c || within b'A' b'Z' c || within b'0' b'9' c || c == b'-' || c == b'_'

unfoldable pub valid_ref : CredentialRef → Bool
valid_ref r =
    not (length r.user_id == 0 || ltb 128 (length r.user_id) || r.version == 0)
    && all ref_byte r.user_id

-- The number that bytes spell, the most significant first, behind `acc`.
unfoldable pub big_endian : ℕ → Text → ℕ
big_endian acc [] = acc
big_endian acc (b ∷ bs) = big_endian (acc * 256 + b) bs

-- `binary.BigEndian.PutUint64`: the last `n` bytes of a number.
unfoldable pub bytes_of : ℕ → ℕ → Text
bytes_of zero c = []
bytes_of (suc n) c = c / 256 ^ n % 256 ∷ bytes_of n c

abbrev last_byte : Text → ℕ
last_byte [] = 0
last_byte (b ∷ []) = b
last_byte (b ∷ c ∷ bs) = last_byte (c ∷ bs)

unfoldable pub zeros : ℕ → Text
zeros zero = []
zeros (suc n) = b'0' ∷ zeros n

-- `%0*d`
unfoldable pub padded : ℕ → ℕ → Text
padded digits n = let d = decimal n in zeros (digits - length d) ++ d

abbrev pub modulus : ℕ → ℕ
modulus digits = if digits == 8 then 100000000 else 1000000

-- The counters of the loop over -1, 0 and 1.
abbrev pub counters : ℕ → List ℕ
counters current =
    (if current == 0 then [] else ((current - 1) ∷ [])) ++ (current ∷ suc current ∷ [])

-- The loop, which keeps the last counter that matches.
unfoldable pub latest : (ℕ → Bool) → Option ℕ → List ℕ → Option ℕ
latest matches found [] = found
latest matches found (c ∷ cs) = latest matches (if matches c then some c else found) cs

module _ (hmac_sha1 : Text → Text → Text) where
  unfoldable pub hotp : Text → ℕ → ℕ → Text
  hotp key counter digits =
      let digest = hmac_sha1 key (bytes_of 8 counter) in
      let offset = last_byte digest % 16 in
      let value = big_endian 0 (take 4 (drop offset digest)) % 2 ^ 31 in
      padded digits (value % modulus digits)

  abbrev pub matches : Secret → Text → ℕ → Bool
  matches secret code counter = text_eq (hotp secret.key counter totp_digits) code

  unfoldable pub match_counter : Secret → Text → ℤ → Option ℕ
  match_counter secret code (negsuc n) = none
  match_counter secret code (pos now) =
      if not secret.valid || not (length code == totp_digits)
      then none
      else if not (all (within b'0' b'9') code)
      then none
      else latest (matches secret code) none (counters (now / totp_period))

  -- `available` is the test on the context and the store.
  module _ {S : Type 0} (consume : S → CredentialRef → ℕ → S × Option Bool) where
    -- The store's answer.
    abbrev pub answered : S × Option Bool → S × Result TotpError (Unit {0})
    answered (s, none) = (s, err TotpError.auth_unavailable)
    answered (s, some true) = (s, ok tt)
    answered (s, some false) = (s, err TotpError.invalid_or_replayed)

    abbrev pub attempt : CredentialRef → Option ℕ → S → S × Result TotpError (Unit {0})
    attempt ref none s = (s, err TotpError.invalid_or_replayed)
    attempt ref (some counter) s = answered (consume s ref counter)

    unfoldable pub verify_and_consume :
        Bool → CredentialRef → Secret → Text → ℤ → S → S × Result TotpError (Unit {0})
    verify_and_consume available ref secret code now s =
        if not available
        then (s, err TotpError.auth_unavailable)
        else if not (valid_ref ref)
        then (s, err TotpError.invalid_or_replayed)
        else attempt ref (match_counter secret code now) s
