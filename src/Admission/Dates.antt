-- ===== src/Admission/Dates.antt =====
-- internal/admission/token.go: what the claims of a token that is not refused say, within the range of
-- dates in which nothing wraps around.
use waiting_room.Base.{
  ◌^◌, ℕ, ◌+◌, ◌-◌, ◌%◌, ◌≤◌, ◌<◌, ◌≡◌, ◌≢◌, refl, ap, arith, Bool, true, false, ◌||◌, [], Text,
  text_eq_iff,
}
use waiting_room.Base.Int.{ℤ, pos, negsuc, int64, ◌+64◌, ◌-64◌, pos_part, neg_part, ◌≤ℤ◌, ◌<ℤ◌}
use waiting_room.Admission.Token.{Claims, refused_claims}

-- What the claims must say to a verifier of a kid, a room, an audience and an epoch at a time.
pub record IsBound (c : Claims) (kid room aud : Text) (epoch : ℕ) (n : ℤ) (skew : ℕ) : Type 0 where
  pub signer : c.kid ≡ kid
  pub for_room : c.room ≡ room
  pub for_audience : c.audience ≡ aud
  pub for_epoch : c.epoch ≡ epoch
  pub named : c.jti ≢ []
  pub from_issue : (c.not_before ≤ℤ c.issued) × (c.issued ≤ℤ c.not_before)
  pub positive : c.issued <ℤ c.expires
  pub short : pos_part c.expires + neg_part c.issued ≤ pos_part c.issued + neg_part c.expires + 3600
  pub started : pos_part c.not_before + neg_part n ≤ pos_part n + neg_part c.not_before + skew
  pub unexpired : pos_part n + neg_part c.expires < pos_part c.expires + neg_part n + skew

-- The claims' dates are int64 values from 1970 on, and the verifier's time lies between 1970 and second
-- 2^62.
pub record IsDated (c : Claims) (n : ℤ) : Type 0 where
  pub from_1970 : pos 0 ≤ℤ c.issued
  pub expires_fits : c.expires ≤ℤ pos (2 ^ 63 - 1)
  pub now_from_1970 : pos 0 ≤ℤ n
  pub now_fits : n ≤ℤ pos (2 ^ 62)

-- Where the result is in the range, nothing wraps around.
rest_of : (a b : ℕ) → b ≤ a → a < 2 ^ 63 → (a % 2 ^ 64 + 2 ^ 64 - b % 2 ^ 64) % 2 ^ 64 ≡ a - b
rest_of a b h k = omega arith

int64-exact : (a b : ℕ) → b ≤ a → a < 2 ^ 63 → int64 a b ≡ pos (a - b)
unfolding int64
int64-exact a b h k = rw (rest_of a b h k) (ground arith)

-- A result in the range, as its parts.
Is : ℤ → ℕ → Type 0
Is z n = (pos_part z ≡ n) × (neg_part z ≡ 0)

minus_exact :
    (a b : ℤ) → pos 0 ≤ℤ b → b ≤ℤ a → a ≤ℤ pos (2 ^ 63 - 1) → Is (a -64 b) (pos_part a - pos_part b)
unfolding ◌-64◌ Is
minus_exact (pos a) (pos b) h k l =
    let e = int64-exact (a + 0) (0 + b) (omega arith) (omega arith) in
    (omega (arith, ap pos_part e), omega (arith, ap neg_part e))
minus_exact (negsuc a) (pos b) h k l = absurd (omega arith)
minus_exact a (negsuc b) h k l = absurd (omega arith)

plus_exact :
    (a : ℤ) (k : ℕ)
    → pos 0 ≤ℤ a
    → pos_part a + k < 2 ^ 63 + neg_part a
    → Is (a +64 pos k) (pos_part a + k)
unfolding ◌+64◌ Is
plus_exact (pos a) k h l =
    let e = int64-exact (a + k) (0 + 0) (omega arith) (omega arith) in
    (omega (arith, ap pos_part e), omega (arith, ap neg_part e))
plus_exact (negsuc a) k h l = absurd (omega arith)

or_parts : (a b : Bool) → (a || b) ≡ false → (a ≡ false) × (b ≡ false)
or_parts true b h = absurd cc
or_parts false b h = (refl, h)

pub refused-IsBound :
    (c : Claims) (kid room aud : Text) (epoch : ℕ) (n : ℤ) (skew : ℕ)
    → IsDated c n
    → skew ≤ 30
    → refused_claims c kid room aud epoch n skew ≡ false
    → IsBound c kid room aud epoch n skew
unfolding refused_claims Is
refused-IsBound c kid room aud epoch n skew d small h =
    let positive : c.issued <ℤ c.expires = ground arith in
    let life = minus_exact c.expires c.issued d.from_1970 (omega arith) d.expires_fits in
    let short : pos_part c.expires + neg_part c.issued
        ≤ pos_part c.issued + neg_part c.expires + 3600 =
      ground (arith, d.from_1970) in
    let from_issue : (c.not_before ≤ℤ c.issued) × (c.issued ≤ℤ c.not_before) =
      (ground arith, ground arith) in
    let starts = plus_exact n skew d.now_from_1970 (omega (arith, d.now_fits)) in
    let started : pos_part c.not_before + neg_part n ≤ pos_part n + neg_part c.not_before + skew =
      ground (arith, d.now_from_1970) in
    let ends =
      plus_exact c.expires skew (omega (arith, d.from_1970))
        (omega (arith, d.now_from_1970, d.now_fits, d.from_1970)) in
    record {
      signer = ground (arith, text_eq_iff c.kid kid);
      for_room = ground (arith, text_eq_iff c.room room);
      for_audience = ground (arith, text_eq_iff c.audience aud);
      for_epoch = ground arith;
      named = ground (arith, text_eq_iff c.jti []);
      from_issue = from_issue;
      positive = positive;
      short = short;
      started = started;
      unexpired = ground (arith, d.now_from_1970, d.from_1970);
    }

pub IsBound-refused :
    (c : Claims) (kid room aud : Text) (epoch : ℕ) (n : ℤ) (skew : ℕ)
    → IsDated c n
    → skew ≤ 30
    → IsBound c kid room aud epoch n skew
    → refused_claims c kid room aud epoch n skew ≡ false
unfolding refused_claims Is
IsBound-refused c kid room aud epoch n skew d small b =
    let life =
      minus_exact c.expires c.issued d.from_1970 (omega (arith, b.positive)) d.expires_fits in
    let starts = plus_exact n skew d.now_from_1970 (omega (arith, d.now_fits)) in
    let ends =
      plus_exact c.expires skew (omega (arith, d.from_1970, b.positive)) (
        omega
          (arith, d.now_from_1970, d.now_fits, d.from_1970, b.short, b.started, b.from_issue)) in
    ground (
      arith,
      d.from_1970,
      d.now_from_1970,
      b.signer,
      b.named,
      text_eq_iff c.kid kid,
      text_eq_iff c.room room,
      text_eq_iff c.audience aud,
      text_eq_iff c.jti [],
    )
