-- ===== src/Queue/Policy/Order.antt =====
-- internal/policy/fifo.go: the order in which tickets are selected.
use mathlib.Core.List.{Perm}
use mathlib.Core.List.Perm
use waiting_room.Base.{
  ℕ, ◌≤◌, zero, suc, ◌<◌, ◌≡◌, refl, min, true, false, List, [], ◌∷◌, ◌++◌, arith, All, All-map,
  All-keep, All-take, length-take-le, length, keep, take, drop, take-append-drop, text_lt, Text,
  Bool-cases, inl, inr, ◌⊎◌,
}
use waiting_room.Queue.Policy.{Candidate, before, sorted_insert, sort, is_alive, eligible}

text_lt_trans_neg : (a b c : Text) → text_lt a b ≡ false → text_lt b c ≡ false → text_lt a c ≡ false
unfolding text_lt
text_lt_trans_neg a [] [] h k = refl
text_lt_trans_neg [] [] (z ∷ c) h k = cc
text_lt_trans_neg (x ∷ a) [] (z ∷ c) h k = cc
text_lt_trans_neg a (y ∷ b) [] h k = refl
text_lt_trans_neg [] (y ∷ b) (z ∷ c) h k = cc
text_lt_trans_neg (x ∷ a) (y ∷ b) (z ∷ c) h k = ground (arith, text_lt_trans_neg a b c)

text_lt_asym : (a b : Text) → text_lt a b ≡ true → text_lt b a ≡ false
unfolding text_lt
text_lt_asym a [] h = cc
text_lt_asym [] (y ∷ b) h = refl
text_lt_asym (x ∷ a) (y ∷ b) h = ground (arith, text_lt_asym a b)

-- `a` comes at or after `b`: its sequence number is higher or, where the two are equal, its id is not
-- lower.
abbrev pub Follows : Candidate → Candidate → Type 0
Follows a b = (b.sequence < a.sequence) ⊎ ((b.sequence ≡ a.sequence) × (text_lt a.id b.id ≡ false))

not_before : (a b : Candidate) → before a b ≡ false → Follows a b
unfolding before
not_before a b h = ground arith

Follows-trans : (a b c : Candidate) → Follows a b → Follows b c → Follows a c
Follows-trans a b c h k = ground (arith, text_lt_trans_neg a.id b.id c.id)

before-Follows : (a b : Candidate) → before a b ≡ true → Follows b a
unfolding before
before-Follows a b h = ground (arith, text_lt_asym a.id b.id)

-- Everything later in the list follows an entry.
abbrev pub IsSorted : List Candidate → Type 0
IsSorted [] = Unit
IsSorted (c ∷ cs) = All (λ d. Follows d c) cs × IsSorted cs

All-sorted_insert :
    (P : Candidate → Type 0) (c : Candidate) (cs : List Candidate)
    → P c
    → All P cs
    → All P (sorted_insert c cs)
unfolding sorted_insert
All-sorted_insert P c [] p h = (p, tt)
All-sorted_insert P c (d ∷ ds) p h = elim (Bool-cases (before d c)) [
  | inl later ↦ rw later (h.0, All-sorted_insert P c ds p h.1)
  | inr first ↦ rw first (p, h)
]

sorted_insert-IsSorted :
    (c : Candidate) (cs : List Candidate) → IsSorted cs → IsSorted (sorted_insert c cs)
unfolding sorted_insert
sorted_insert-IsSorted c [] s = (tt, tt)
sorted_insert-IsSorted c (d ∷ ds) s = elim (Bool-cases (before d c)) [
  | inl later ↦ rw later (
    All-sorted_insert (λ x. Follows x d) c ds (before-Follows d c later) s.0,
    sorted_insert-IsSorted c ds s.1,
  )
  | inr first ↦ rw first (
      let after = not_before d c first in
      ((after, All-map _ _ (λ x h. Follows-trans x d c h after) ds s.0), s))
]

pub sort-IsSorted : (cs : List Candidate) → IsSorted (sort cs)
unfolding sort
sort-IsSorted [] = tt
sort-IsSorted (c ∷ cs) = sorted_insert-IsSorted c (sort cs) (sort-IsSorted cs)

sorted_insert-perm : (c : Candidate) (cs : List Candidate) → Perm (sorted_insert c cs) (c ∷ cs)
unfolding sorted_insert
sorted_insert-perm c [] = Perm.rfl
sorted_insert-perm c (d ∷ ds) = elim (Bool-cases (before d c)) [
  | inl later ↦ rw later (Perm.trans (Perm.cons d (sorted_insert-perm c ds)) (Perm.swap c d ds))
  | inr first ↦ rw first Perm.rfl
]

pub sort-perm : (cs : List Candidate) → Perm (sort cs) cs
unfolding sort
sort-perm [] = Perm.rfl
sort-perm (c ∷ cs) = Perm.trans (sorted_insert-perm c (sort cs)) (Perm.cons c (sort-perm cs))

length-sorted_insert :
    (c : Candidate) (cs : List Candidate) → length (sorted_insert c cs) ≡ suc (length cs)
unfolding sorted_insert
length-sorted_insert c [] = refl
length-sorted_insert c (d ∷ ds) = ground (arith, length-sorted_insert c ds)

length-sort : (cs : List Candidate) → length (sort cs) ≡ length cs
unfolding sort
length-sort [] = refl
length-sort (c ∷ cs) = omega (arith, length-sorted_insert c (sort cs), length-sort cs)

length-take : (n : ℕ) (cs : List Candidate) → length (take n cs) ≡ min n (length cs)
unfolding take
length-take zero cs = omega arith
length-take (suc n) [] = omega arith
length-take (suc n) (c ∷ cs) = omega (arith, length-take n cs)

pub eligible_zero : (candidates : List Candidate) (now : ℕ) → eligible candidates now 0 ≡ []
unfolding eligible
eligible_zero candidates now = refl

eligible-suc :
    (candidates : List Candidate) (now n : ℕ)
    → eligible candidates now (suc n) ≡ take (suc n) (sort (keep (is_alive now) candidates))
unfolding eligible
eligible-suc candidates now n = ground arith

-- For a limit above 0, `Eligible` returns first in, first out the candidates that are alive: its result
-- and some rest together are the live candidates, each once, in the order of their sequence numbers
-- and, where these are equal, of their ids; the result has the limit's length, or all.
pub eligible_fifo :
    (candidates : List Candidate) (now limit : ℕ)
    → 0 < limit
    → let out = eligible candidates now limit in
      let alive = keep (is_alive now) candidates in
      (rest : List Candidate) × Perm (out ++ rest) alive
      × IsSorted (out ++ rest)
      × (length out ≡ min limit (length alive))
eligible_fifo candidates now zero h = absurd (omega arith)
eligible_fifo candidates now (suc n) h =
    let alive = keep (is_alive now) candidates in
    let whole = take-append-drop (suc n) (sort alive) in
    (
      drop (suc n) (sort alive),
      rw (eligible-suc candidates now n, whole) (sort-perm alive),
      rw (eligible-suc candidates now n, whole) (sort-IsSorted alive),
      rw (eligible-suc candidates now n)
          (omega (arith, length-take (suc n) (sort alive), length-sort alive)),
    )

All-sort : (P : Candidate → Type 0) (cs : List Candidate) → All P cs → All P (sort cs)
unfolding sort
All-sort P [] h = tt
All-sort P (c ∷ cs) h = All-sorted_insert P c (sort cs) h.0 (All-sort P cs h.1)

-- What holds of every candidate holds of every selected one.
pub eligible-All :
    (P : Candidate → Type 0) (cs : List Candidate) (now limit : ℕ)
    → All P cs
    → All P (eligible cs now limit)
eligible-All P cs now zero h = rw (eligible_zero cs now) tt
eligible-All P cs now (suc n) h =
    rw (eligible-suc cs now n)
      (All-take P (suc n) _ (All-sort P _ (All-keep P (is_alive now) cs h)))

pub length-eligible-le :
    (cs : List Candidate) (now limit : ℕ) → length (eligible cs now limit) ≤ limit
length-eligible-le cs now zero = rw (eligible_zero cs now) (omega arith)
length-eligible-le cs now (suc n) =
    rw (eligible-suc cs now n) (length-take-le (suc n) (sort (keep (is_alive now) cs)))
