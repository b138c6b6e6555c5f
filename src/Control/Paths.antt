-- ===== src/Control/Paths.antt =====
-- internal/control/config.go: hostnames, decoded paths and path prefixes, on the bytes of a string.
-- A byte of 128 or more begins a rune that the tests on runes refuse as they refuse the byte.
pub mod Prefixes
use waiting_room.Base.{
  ℕ, ◌≡◌, ◌⊎◌, inl, inr, refl, sym, ap, ◌∙◌, subst, arith, Bool-cases, Bool, true, false, not, ◌&&◌,
  ◌||◌, List, [], ◌∷◌, ◌++◌, ◌==◌, leb, ltb, if◌then◌else◌, Text, codes, text_eq, text_eq_iff,
  text_eq_refl, length, all, any, within,
}

-- `strings.HasPrefix`
unfoldable pub has_prefix : Text → Text → Bool
has_prefix [] s = true
has_prefix (c ∷ p) [] = false
has_prefix (c ∷ p) (d ∷ s) = c == d && has_prefix p s

-- `strings.Contains`
unfoldable pub contains : Text → Text → Bool
contains [] sub = has_prefix sub []
contains (c ∷ s) sub = has_prefix sub (c ∷ s) || contains s sub

-- `strings.TrimSuffix(s, "/")`
unfoldable pub trim_slash : Text → Text
trim_slash [] = []
trim_slash (c ∷ []) = if c == b'/' then [] else c ∷ []
trim_slash (c ∷ d ∷ s) = c ∷ trim_slash (d ∷ s)

abbrev onto_first : ℕ → List Text → List Text
onto_first c [] = []
onto_first c (p ∷ ps) = (c ∷ p) ∷ ps

-- `strings.Split` at one byte.
unfoldable pub split : ℕ → Text → List Text
split sep [] = [] ∷ []
split sep (c ∷ s) = let rest = split sep s in if c == sep then [] ∷ rest else onto_first c rest

abbrev last_is : ℕ → Text → Bool
last_is d [] = false
last_is d (c ∷ []) = c == d
last_is d (c ∷ c' ∷ s) = last_is d (c' ∷ s)

abbrev first_is : ℕ → Text → Bool
first_is d [] = false
first_is d (c ∷ s) = c == d

abbrev label_byte : ℕ → Bool
label_byte c = within b'a' b'z' c || within b'0' b'9' c || c == b'-'

abbrev valid_label : Text → Bool
valid_label label =
    not (length label == 0 || leb 64 (length label) || first_is b'-' label || last_is b'-' label)
    && all label_byte label

abbrev is_upper : ℕ → Bool
is_upper c = within b'A' b'Z' c

-- `strings.ToLower` is written out for ASCII; no label may have a byte of any other letter.
unfoldable pub valid_hostname : Text → Bool
valid_hostname host =
    not (length host == 0 || leb 254 (length host) || any is_upper host)
    && all valid_label (split b'.' host)

abbrev path_byte : ℕ → Bool
path_byte c = not (leb c 32 || leb 127 c || any (◌==◌ c) (b'%' ∷ b'\\' ∷ b'?' ∷ b'#' ∷ b';' ∷ []))

abbrev is_dots : Text → Bool
is_dots segment = text_eq segment (codes ".") || text_eq segment (codes "..")

unfoldable pub valid_path : Text → Bool
valid_path p =
    not (length p == 0 || leb 2049 (length p) || not (first_is b'/' p) || contains p (codes "//"))
    && all path_byte p
    && not (any is_dots (split b'/' p))

unfoldable pub prefix_matches : Text → Text → Bool
prefix_matches prefix path =
    let p = trim_slash prefix in text_eq p [] || text_eq path p || has_prefix (p ++ codes "/") path

unfoldable pub reserved : Text → Bool
reserved p = prefix_matches (codes "/_wr") p || prefix_matches (codes "/api/admin") p
