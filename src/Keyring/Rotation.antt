-- ===== src/Keyring/Rotation.antt =====
-- internal/keyring/keyring.go: the key of a promotion, before and after a rotation.
use waiting_room.Base.{
  ◌≡◌, inl, inr, refl, ap, ◌∙◌, subst, arith, Bool-cases, true, false, List, [], ◌∷◌, ◌++◌, none,
  some, Text, text_eq, text_eq_iff, text_eq_refl, any,
}
use waiting_room.Base.Int.{ℤ, ◌<ℤ◌, ◌≤ℤ◌}
use waiting_room.Keyring.{
  Key, Set, Ed25519, keys, refused_key, keys_ok, validate, admission_at, find, find_in,
}

-- Where a ring `s` has no previous key and a ring `t` has the current key of `s` as its previous one,
-- a promotion earlier than the time of the current key of `t` has the same key in both; one at or
-- after that time has the current key of `t`.
pub admission_at_rotation :
    (s t : Set) (promoted : ℤ)
    → s.previous ≡ none
    → t.previous ≡ some s.current
    → (promoted <ℤ t.current.since → admission_at t promoted ≡ admission_at s promoted)
      × (t.current.since ≤ℤ promoted → admission_at t promoted ≡ t.current)
unfolding admission_at
admission_at_rotation s t promoted e f = (λ l. ground arith, λ l. ground arith)

first_seen : (id : Text) (seen : List Text) → any (text_eq id) (id ∷ seen) ≡ true
unfolding any
first_seen id seen = rw (text_eq_refl id) refl

-- A key behind has an identifier that differs from those seen.
seen_apart :
    (ed : Ed25519) (role : Text) (seen : List Text) (id : Text) (xs : List Key) (k : Key)
    (ys : List Key)
    → any (text_eq id) seen ≡ true
    → keys_ok ed role seen (xs ++ (k ∷ ys)) ≡ true
    → text_eq id k.id ≡ false
unfolding keys_ok refused_key any
seen_apart ed role seen id [] k ys h v = elim (Bool-cases (text_eq id k.id)) [
  | inl same ↦
      (let e = (text_eq_iff id k.id).0 same in
        let again = subst (λ i. any (text_eq i) seen ≡ true) e h in absurd (ground (arith, again)))
  | inr other ↦ other
]
seen_apart ed role seen id (x ∷ xs) k ys h v =
    seen_apart ed role (x.id ∷ seen) id xs k ys (ground arith) (ground arith)

find_among :
    (ed : Ed25519) (role : Text) (seen : List Text) (xs : List Key) (k : Key) (ys : List Key)
    → keys_ok ed role seen (xs ++ (k ∷ ys)) ≡ true
    → find_in k.id (xs ++ (k ∷ ys)) ≡ some k
unfolding find_in keys_ok
find_among ed role seen [] k ys h = rw (text_eq_refl k.id) refl
find_among ed role seen (x ∷ xs) k ys h =
    let apart =
      seen_apart ed role (x.id ∷ seen) x.id xs k ys (first_seen x.id seen) (ground arith) in
    ground (arith, find_among ed role (x.id ∷ seen) xs k ys, apart)

-- In a ring that is valid for a role, `Find` of a key's identifier returns that key, for each of the
-- current, the previous and the next key.
pub find-keys :
    (ed : Ed25519) (s : Set) (role : Text) (xs : List Key) (k : Key) (ys : List Key)
    → validate ed s role ≡ none
    → keys s ≡ xs ++ (k ∷ ys)
    → find s k.id ≡ some k
unfolding validate
find-keys ed s role xs k ys v e =
    ap (find_in k.id) e
    ∙ find_among ed role [] xs k ys (subst (λ l. keys_ok ed role [] l ≡ true) e (ground arith))
