-- ===== src/Base/Texts.antt =====
-- Go strings as their bytes: equality, the order of `<`, decimal print.
use Prim.Native.Char.{code}
use Prim.Native.String.{String}
use Prim.Native.Nat.{ℕ, zero, suc, ◌+◌, ◌*◌, ◌-◌, ◌/◌, ◌%◌, ◌<◌}
use mathlib.Core.Path.{◌≡◌, refl, subst, sym, ap, ◌∙◌}
use mathlib.Core.Logic.{◌↔◌, inl, inr}
use mathlib.Core.Bool.{Bool, true, false, ◌&&◌, ◌||◌}
use mathlib.Core.List.{List, [], ◌∷◌, ◌++◌}
use native.Mathlib.Omega.{arith}
use waiting_room.Base.Tests.{ltb, ◌==◌, if◌then◌else◌, Bool-cases}

abbrev pub Text : Type 0
Text = List ℕ

-- The bytes of an ASCII literal.
abbrev pub codes : String → Text
codes String.[] = []
codes (String.◌∷◌ c s) = code c ∷ codes s

unfoldable pub text_eq : Text → Text → Bool
text_eq [] [] = true
text_eq [] (b ∷ bs) = false
text_eq (a ∷ as') [] = false
text_eq (a ∷ as') (b ∷ bs) = a == b && text_eq as' bs

pub text_eq_sound : (a b : Text) → text_eq a b ≡ true → a ≡ b
unfolding text_eq
text_eq_sound [] [] h = refl
text_eq_sound [] (b ∷ bs) h = cc
text_eq_sound (a ∷ as') [] h = cc
text_eq_sound (a ∷ as') (b ∷ bs) h = ground (arith, text_eq_sound as' bs)

pub text_eq_refl : (a : Text) → text_eq a a ≡ true
unfolding text_eq
text_eq_refl [] = refl
text_eq_refl (a ∷ as') = ground (arith, text_eq_refl as')

pub text_eq_iff : (a b : Text) → (text_eq a b ≡ true) ↔ (a ≡ b)
text_eq_iff a b = (text_eq_sound a b, λ e. subst (λ x. text_eq a x ≡ true) e (text_eq_refl a))

-- Go's `<` on strings: bytewise, a proper prefix first.
unfoldable pub text_lt : Text → Text → Bool
text_lt a [] = false
text_lt [] (b ∷ bs) = true
text_lt (a ∷ as') (b ∷ bs) = ltb a b || (a == b && text_lt as' bs)

-- The decimal digits of a number, the last first reached; a number has fewer digits than `n + 1`.
unfoldable pub digits_onto : ℕ → ℕ → Text → Text
digits_onto zero n out = out
digits_onto (suc fuel) n out =
    let rest = digits_onto fuel (n / 10) ((b'0' + n % 10) ∷ out) in if n == 0 then out else rest

-- `%d` of an unsigned number.
unfoldable pub decimal : ℕ → Text
unfolding digits_onto
decimal n = if n == 0 then b'0' ∷ [] else digits_onto (suc n) n []

decimal_runs : decimal 1207 ≡ codes "1207"
unfolding decimal
decimal_runs = refl

-- The number that decimal digits spell behind `acc`.
read_onto : ℕ → Text → ℕ
read_onto acc [] = acc
read_onto acc (c ∷ cs) = read_onto (acc * 10 + (c - b'0')) cs

read_onto-digits_onto :
    (fuel n : ℕ) (out : Text) → n < fuel → read_onto 0 (digits_onto fuel n out) ≡ read_onto n out
unfolding digits_onto read_onto
read_onto-digits_onto zero n out h = absurd (omega arith)
read_onto-digits_onto (suc fuel) n out h = elim (Bool-cases (n == 0)) [
  | inl done ↦ rw done (ap (λ k. read_onto k out) (ground arith))
  | inr more ↦ rw more (
      read_onto-digits_onto fuel (n / 10) ((b'0' + n % 10) ∷ out) (ground arith)
      ∙ ap (λ k. read_onto k out) (omega arith))
]

read_onto-decimal : (n : ℕ) → read_onto 0 (decimal n) ≡ n
unfolding decimal read_onto
read_onto-decimal n = elim (Bool-cases (n == 0)) [
  | inl none' ↦ rw none' (ground arith)
  | inr some' ↦ ground (arith, read_onto-digits_onto (suc n) n [] (omega arith))
]

-- Numbers with the same decimal print are equal.
pub decimal-injective : (m n : ℕ) → decimal m ≡ decimal n → m ≡ n
decimal-injective m n e = sym (read_onto-decimal m) ∙ ap (read_onto 0) e ∙ read_onto-decimal n

cons-injective : (a b : ℕ) (as' bs : Text) → a ∷ as' ≡ b ∷ bs → as' ≡ bs
cons-injective a b as' bs e = cc

pub append_cancel : (a b c : Text) → a ++ b ≡ a ++ c → b ≡ c
append_cancel [] b c e = e
append_cancel (x ∷ a) b c e = append_cancel a b c (cons-injective x x _ _ e)
