-- ===== src/Control/Paths/Prefixes.antt =====
-- internal/control/config.go: when two path prefixes can match one path.
use waiting_room.Base.{
  ◌≡◌, ◌⊎◌, inl, inr, refl, sym, ap, subst, arith, Bool-cases, Bool, true, false, ◌&&◌, ◌||◌, [],
  ◌∷◌, ◌++◌, ◌==◌, Text, codes, text_eq,
}
use waiting_room.Control.Paths.{has_prefix, trim_slash, prefix_matches}

-- A path at or below a prefix that has no slash at its end.
under : Text → Text → Bool
under [] [] = true
under [] (c ∷ path) = c == b'/'
under (c ∷ p) [] = false
under (c ∷ p) (d ∷ path) = c == d && under p path

under_lem : (p path : Text) → (text_eq path p || has_prefix (p ++ codes "/") path) ≡ under p path
unfolding under has_prefix text_eq
under_lem [] [] = refl
under_lem [] (c ∷ path) = ground arith
under_lem (c ∷ p) [] = refl
under_lem (c ∷ p) (d ∷ path) = ground (arith, under_lem p path)

-- Two prefixes of one path are one below the other.
under_comparable :
    (p q path : Text) → under p path ≡ true → under q path ≡ true → (under p q || under q p) ≡ true
unfolding under
under_comparable [] [] path h k = refl
under_comparable [] (d ∷ q) [] h k = absurd cc
under_comparable [] (d ∷ q) (e ∷ path) h k = ground arith
under_comparable (c ∷ p) [] [] h k = absurd cc
under_comparable (c ∷ p) [] (e ∷ path) h k = ground arith
under_comparable (c ∷ p) (d ∷ q) [] h k = absurd cc
under_comparable (c ∷ p) (d ∷ q) (e ∷ path) h k = ground (arith, under_comparable p q path)

under-append : (p q : Text) → under p q ≡ true → under p (q ++ codes "/") ≡ true
unfolding under
under-append [] [] h = refl
under-append [] (c ∷ q) h = h
under-append (c ∷ p) [] h = absurd cc
under-append (c ∷ p) (d ∷ q) h = ground (arith, under-append p q)

-- A text is its trimmed form, with a slash or without.
trim_slash_cases : (s : Text) → (s ≡ trim_slash s) ⊎ (s ≡ trim_slash s ++ codes "/")
unfolding trim_slash
trim_slash_cases [] = inl refl
trim_slash_cases (c ∷ []) = elim (Bool-cases (c == b'/')) [
  | inl slash ↦ inr (rw slash (ground arith))
  | inr other ↦ inl (rw other refl)
]
trim_slash_cases (c ∷ d ∷ s) = elim (trim_slash_cases (d ∷ s)) [
  | inl e ↦ inl (ap (◌∷◌ c) e)
  | inr e ↦ inr (ap (◌∷◌ c) e)
]

under_untrimmed : (p q : Text) → under p (trim_slash q) ≡ true → under p q ≡ true
under_untrimmed p q h = elim (trim_slash_cases q) [
  | inl e ↦ subst (λ x. under p x ≡ true) (sym e) h
  | inr e ↦ subst (λ x. under p x ≡ true) (sym e) (under-append p (trim_slash q) h)
]

prefix_matches_lem :
    (p path : Text)
    → prefix_matches p path ≡ (text_eq (trim_slash p) [] || under (trim_slash p) path)
unfolding prefix_matches
prefix_matches_lem p path = ground (arith, under_lem (trim_slash p) path)

-- Of two prefixes that match one path, one matches the other.
pub prefix_matches_comparable :
    (a b path : Text)
    → prefix_matches a path ≡ true
    → prefix_matches b path ≡ true
    → (prefix_matches a b || prefix_matches b a) ≡ true
prefix_matches_comparable a b path h k = ground (
  arith,
  prefix_matches_lem a path,
  prefix_matches_lem b path,
  prefix_matches_lem a b,
  prefix_matches_lem b a,
  under_comparable (trim_slash a) (trim_slash b) path,
  under_untrimmed (trim_slash a) b,
  under_untrimmed (trim_slash b) a,
)
