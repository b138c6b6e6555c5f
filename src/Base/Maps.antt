-- ===== src/Base/Maps.antt =====
-- A Go map with string keys, as an association list: a write replaces the entry of its key.
use Prim.Native.Nat.{◌+◌, ◌≤◌}
use mathlib.Core.Path.{◌≡◌, refl, subst, ap}
use mathlib.Core.Logic.{inl, inr}
use mathlib.Core.Bool.{Bool, true}
use mathlib.Core.Option.{Option, none, some}
use mathlib.Core.List.{List, [], ◌∷◌}
use native.Mathlib.Omega.{arith}
use waiting_room.Base.Tests.{if◌then◌else◌, Bool-cases}
use waiting_room.Base.Lists.{All, length, keep, count}
use waiting_room.Base.Texts.{Text, text_eq, text_eq_iff, text_eq_sound, text_eq_refl}

module _ {ℓ} {V : Type ℓ} where
  unfoldable pub lookup : Text → List (Text × V) → Option V
  lookup k [] = none
  lookup k ((j, v) ∷ m) = if text_eq j k then some v else lookup k m

  unfoldable pub insert : Text → V → List (Text × V) → List (Text × V)
  insert k v [] = (k, v) ∷ []
  insert k v ((j, w) ∷ m) = if text_eq j k then (k, v) ∷ m else (j, w) ∷ insert k v m

  pub lookup-insert :
      (k j : Text) (v : V) (m : List (Text × V))
      → lookup j (insert k v m) ≡ (if text_eq k j then some v else lookup j m)
  unfolding lookup insert
  lookup-insert k j v [] = refl
  lookup-insert k j v ((i, w) ∷ m) =
      ground (arith, text_eq_iff k j, text_eq_iff i k, text_eq_iff i j, lookup-insert k j v m)

  pub lookup-insert_self :
      (k : Text) (v : V) (m : List (Text × V)) → lookup k (insert k v m) ≡ some v
  lookup-insert_self k v m = simp (lookup-insert, text_eq_refl)

  -- No key has two entries.
  abbrev pub Distinct : List (Text × V) → Type ℓ
  Distinct [] = Unit
  Distinct ((k, v) ∷ m) = (lookup k m ≡ none) × Distinct m

  pub insert-Distinct :
      (k : Text) (v : V) (m : List (Text × V)) → Distinct m → Distinct (insert k v m)
  unfolding insert lookup
  insert-Distinct k v [] d = (refl, tt)
  insert-Distinct k v ((j, w) ∷ m) d = elim (Bool-cases (text_eq j k)) [
    | inl same ↦ rw same (subst (λ x. lookup x m ≡ none) (text_eq_sound j k same) d.0, d.1)
    | inr other ↦ rw other (
      ground (arith, lookup-insert k j v m, text_eq_iff j k, text_eq_iff k j),
      insert-Distinct k v m d.1,
    )
  ]

  pub insert-All {κ} :
      (P : Text × V → Type κ) (k : Text) (v : V) (m : List (Text × V))
      → P (k, v)
      → All P m
      → All P (insert k v m)
  unfolding insert
  insert-All P k v [] p h = (p, tt)
  insert-All P k v ((j, w) ∷ m) p h = elim (Bool-cases (text_eq j k)) [
    | inl same ↦ rw same (p, h.1)
    | inr other ↦ rw other (h.0, insert-All P k v m p h.1)
  ]

  -- What holds of every entry holds of the one that a lookup finds.
  pub All-lookup {κ} :
      (P : Text × V → Type κ) (k : Text) (v : V) (m : List (Text × V))
      → All P m
      → lookup k m ≡ some v
      → P (k, v)
  unfolding lookup
  All-lookup P k v [] h e = cc
  All-lookup P k v ((j, w) ∷ m) h e = elim (Bool-cases (text_eq j k)) [
    | inl same ↦
        let found : some w ≡ some v = (rw same at e) in
        let entry : ◌≡◌ {A = Text × V} (j, w) (k, v) = cc (text_eq_sound j k same, found) in
        subst P entry h.0
    | inr other ↦ All-lookup P k v m h.1 (rw other at e)
  ]

  -- A write that does not raise the test of its key's entry does not raise the count of the map.
  pub count-insert-le :
      (p : Text × V → Bool) (k : Text) (v : V) (m : List (Text × V))
      → count p (insert k v m) ≤ count p m + 1
  unfolding count insert
  count-insert-le p k v [] = ground arith
  count-insert-le p k v ((j, w) ∷ m) = ground (arith, count-insert-le p k v m)

  pub count-insert_over :
      (p : Text × V → Bool) (k : Text) (v w : V) (m : List (Text × V))
      → lookup k m ≡ some w
      → p (k, w) ≡ true
      → count p (insert k v m) ≤ count p m
  unfolding count insert lookup
  count-insert_over p k v w [] h t = cc
  count-insert_over p k v w ((j, x) ∷ m) h t = elim (Bool-cases (text_eq j k)) [
    | inl same ↦
        let found : some x ≡ some w = (rw same at h) in
        let entry : ◌≡◌ {A = Text × V} (j, x) (k, w) = cc (text_eq_sound j k same, found) in
        rw same (ground (arith, ap p entry))
    | inr other ↦ rw other (omega (arith, count-insert_over p k v w m (rw other at h) t))
  ]

  -- A new key adds its own entry to the count.
  pub count-insert_new :
      (p : Text × V → Bool) (k : Text) (v : V) (m : List (Text × V))
      → lookup k m ≡ none
      → count p (insert k v m) ≡ count p m + (if p (k, v) then 1 else 0)
  unfolding count insert lookup
  count-insert_new p k v [] h = ground arith
  count-insert_new p k v ((j, w) ∷ m) h = elim (Bool-cases (text_eq j k)) [
    | inl same ↦ absurd (cc (rw same at h))
    | inr other ↦ rw other (omega (arith, count-insert_new p k v m (rw other at h)))
  ]

  pub length-insert-le :
      (k : Text) (v : V) (m : List (Text × V)) → length (insert k v m) ≤ length m + 1
  unfolding insert
  length-insert-le k v [] = omega arith
  length-insert-le k v ((j, w) ∷ m) = ground (arith, length-insert-le k v m)

  pub keep-lookup-none :
      (p : Text × V → Bool) (k : Text) (m : List (Text × V))
      → lookup k m ≡ none
      → lookup k (keep p m) ≡ none
  unfolding keep lookup
  keep-lookup-none p k [] h = refl
  keep-lookup-none p k ((j, w) ∷ m) h = ground (arith, keep-lookup-none p k m)

  pub keep-Distinct : (p : Text × V → Bool) (m : List (Text × V)) → Distinct m → Distinct (keep p m)
  unfolding keep
  keep-Distinct p [] d = tt
  keep-Distinct p ((j, w) ∷ m) d = ground (arith, keep-lookup-none p j m d.0, keep-Distinct p m d.1)

pub lookup-keep {ℓ} :
    {V : Type ℓ} (q : Text × V → Bool) (h : Text) (m : List (Text × V)) (v : V)
    → Distinct m
    → lookup h (keep q m) ≡ some v
    → lookup h m ≡ some v
unfolding lookup keep
lookup-keep q h [] v d e = e
lookup-keep q h ((j, w) ∷ m) v d e = elim (Bool-cases (text_eq j h)) [
  | inl here ↦
      let j_is : j ≡ h = (text_eq_iff j h).0 here in
      let gone : lookup h (keep q m) ≡ none =
        keep-lookup-none q h m (subst (λ x. lookup x m ≡ none) j_is d.0) in
      ground arith
  | inr other ↦ ground (arith, lookup-keep q h m v d.1)
]

pub length-keep-le {ℓ} : {A : Type ℓ} (p : A → Bool) (xs : List A) → length (keep p xs) ≤ length xs
unfolding keep
length-keep-le p [] = omega arith
length-keep-le p (x ∷ xs) = ground (arith, length-keep-le p xs)
