-- ===== src/Control/Events/Intervals.antt =====
-- internal/adminauth/pgstore/events.go: events that have no instant in common.
use waiting_room.Base.{
  ◌≤◌, ◌≡◌, ◌≢◌, ◌⊎◌, inl, inr, sym, ◌∙◌, subst, arith, Bool, true, false, ◌||◌, Bool-cases, [],
  ◌∷◌, none, some, ltb, Text, text_eq, text_eq_iff, any, keep, lookup, insert, insert-All, Distinct,
  All, All-map, All-lookup,
}
use waiting_room.Control.Events.{
  EventInput, Event, is_live, overlaps, Rows, in_room, clashes, event_of,
}

-- Two live events of one room have no instant in common.
abbrev pub Apart : Event → Event → Type 0
Apart a b =
    is_live a.state ≡ true
    → is_live b.state ≡ true
    → a.room_id ≡ b.room_id
    → (a.drain_at ≤ b.prequeue_at) ⊎ (b.drain_at ≤ a.prequeue_at)

-- No event is apart from one behind it.
abbrev pub AreApart : Rows → Type 0
AreApart [] = Unit
AreApart (e ∷ es) = All (λ (x : Text × Event). Apart e.1 x.1) es × AreApart es

pub Apart-sym : (a b : Event) → Apart a b → Apart b a
Apart-sym a b h lb la same = elim (h la lb (sym same)) [ inl x ↦ inr x | inr x ↦ inl x ]

-- The rows of other identifiers.
abbrev pub AllOther : Text → Event → Rows → Type 0
AllOther id n = All (λ (x : Text × Event). x.0 ≢ id → Apart n x.1)

pub others :
    (id : Text) (n : Event) (es : Rows)
    → lookup id es ≡ none
    → AllOther id n es
    → All (λ (x : Text × Event). Apart n x.1) es
unfolding lookup
others id n [] h a = tt
others id n ((j, w) ∷ es) h a = elim (Bool-cases (text_eq j id)) [
  | inl same ↦ absurd (cc (rw same at h))
  | inr other ↦
      (a.0 (λ e. absurd (ground (arith, text_eq_iff j id))), others id n es (rw other at h) a.1)
]

pub insert-AreApart :
    (id : Text) (n : Event) (es : Rows)
    → Distinct es
    → AllOther id n es
    → AreApart es
    → AreApart (insert id n es)
unfolding insert
insert-AreApart id n [] d a h = (tt, tt)
insert-AreApart id n ((j, w) ∷ es) d a h = elim (Bool-cases (text_eq j id)) [
  | inl same ↦
      rw same
        (others id n es (subst (λ x. lookup x es ≡ none) ((text_eq_iff j id).0 same) d.0) a.1, h.1)
  | inr other ↦ rw other (
    insert-All (λ (x : Text × Event). Apart w x.1) id n es
        (Apart-sym n w (a.0 (λ e. absurd (ground (arith, text_eq_iff j id))))) h.0,
    insert-AreApart id n es d.1 a.1 h.1,
  )
]

pub apart_others :
    (id : Text) (e : Event) (es : Rows) → AreApart es → lookup id es ≡ some e → AllOther id e es
unfolding lookup
apart_others id e [] h found = tt
apart_others id e ((j, w) ∷ es) h found = elim (Bool-cases (text_eq j id)) [
  | inl here ↦
      let same : some w ≡ some e = rw here at found in
      let w_is : w ≡ e = cc same in
      (
        λ n. absurd (n ((text_eq_iff j id).0 here)),
        All-map (λ (x : Text × Event). Apart w x.1) (λ (x : Text × Event). x.0 ≢ id → Apart e x.1)
            (λ x a n. subst (λ y. Apart y x.1) w_is a) es h.0,
      )
  | inr other ↦
      let later = rw other at found in
      (
        λ n. Apart-sym w e (All-lookup (λ (x : Text × Event). Apart w x.1) id e es h.0 later),
        apart_others id e es h.1 later,
      )
]

-- An event with the interval of another, live one.
pub same_interval :
    (id : Text) (e n : Event) (es : Rows)
    → AreApart es
    → lookup id es ≡ some e
    → is_live e.state ≡ true
    → n.room_id ≡ e.room_id
    → n.prequeue_at ≡ e.prequeue_at
    → n.drain_at ≡ e.drain_at
    → AllOther id n es
same_interval id e n es h found live r p q =
    All-map (λ (x : Text × Event). x.0 ≢ id → Apart e x.1)
      (λ (x : Text × Event). x.0 ≢ id → Apart n x.1)
      (λ x a other ln lx room. elim (a other live lx (sym r ∙ room)) [
        | inl k ↦ inl (omega (arith, k, q))
        | inr k ↦ inr (omega (arith, k, p))
      ])
      es (apart_others id e es h found)

-- An event that is not live.
pub not_live : (id : Text) (n : Event) (es : Rows) → is_live n.state ≡ false → AllOther id n es
not_live id n [] h = tt
not_live id n (x ∷ es) h = (λ o ln lx r. absurd (cc (h, ln)), not_live id n es h)

-- An event that does not clash with an input, where its identifier is another.
pub no_clash :
    (own j room : Text) (i : EventInput) (w : Event)
    → j ≢ own
    → in_room room (j, w) ≡ true
    → clashes own i (j, w) ≡ false
    → Apart (event_of room i) w
unfolding overlaps
no_clash own j room i w n here h ln lw same = elim (Bool-cases (ltb w.prequeue_at i.drain_at)) [
  | inl before ↦ inr (ground (arith, text_eq_iff j own))
  | inr after ↦ inl (ground arith)
]

-- An input that clashes with no event of its room.
pub placed :
    (own id room : Text) (i : EventInput) (es : Rows)
    → All (λ (x : Text × Event). x.0 ≢ id → x.0 ≢ own) es
    → any (clashes own i) (keep (in_room room) es) ≡ false
    → AllOther id (event_of room i) es
unfolding any keep
placed own id room i [] f h = tt
placed own id room i ((j, w) ∷ es) f h = elim (Bool-cases (in_room room (j, w))) [
  | inl here ↦
      let both : (clashes own i (j, w) || any (clashes own i) (keep (in_room room) es)) ≡ false =
        rw here at h in
      let (first, rest) =
        neither (clashes own i (j, w)) (any (clashes own i) (keep (in_room room) es)) both in
      (λ n. no_clash own j room i w (f.0 n) here first, placed own id room i es f.1 rest)
  | inr away ↦ (
    λ n ln lw same. absurd (ground (arith, text_eq_iff w.room_id room)),
    placed own id room i es f.1 (rw away at h),
  )
]
  where
    neither : (a b : Bool) → (a || b) ≡ false → (a ≡ false) × (b ≡ false)
    neither a b h = (ground arith, ground arith)
