-- ===== src/Queue/Model/Tickets.antt =====
-- internal/queue/model/model.go: what the operations do to the map of tickets.
use waiting_room.Base.{
  ℕ, ◌+◌, ◌≤◌, ◌≡◌, refl, true, false, List, [], ◌∷◌, none, some, arith, All, Distinct, Text,
  lookup, insert, count, count-insert-le, count-insert_over,
}
use waiting_room.Queue.Model.{
  Ticket, is_lease, is_expired, visitor_count, lease_count, expire, expire_all,
}

-- Each ticket stands under its own id.
abbrev pub Keyed : Text × Ticket → Type 0
Keyed e = e.1.id ≡ e.0

pub expire_id : (now skew : ℕ) (t : Ticket) → (expire now skew t).id ≡ t.id
unfolding expire
expire_id now skew t = ground arith

pub All-expire_all :
    (P Q : Text × Ticket → Type 0) (now skew : ℕ)
    → ((k : Text) (t : Ticket) → P (k, t) → Q (k, expire now skew t))
    → (m : List (Text × Ticket)) → All P m
    → All Q (expire_all now skew m)
unfolding expire_all
All-expire_all P Q now skew f [] h = tt
All-expire_all P Q now skew f ((k, t) ∷ m) h = (f k t h.0, All-expire_all P Q now skew f m h.1)

lookup-expire_all-none :
    (now skew : ℕ) (k : Text) (m : List (Text × Ticket))
    → lookup k m ≡ none
    → lookup k (expire_all now skew m) ≡ none
unfolding lookup expire_all
lookup-expire_all-none now skew k [] h = refl
lookup-expire_all-none now skew k ((j, t) ∷ m) h =
    ground (arith, lookup-expire_all-none now skew k m)

pub expire_all-Distinct :
    (now skew : ℕ) (m : List (Text × Ticket)) → Distinct m → Distinct (expire_all now skew m)
unfolding expire_all
expire_all-Distinct now skew [] d = tt
expire_all-Distinct now skew ((k, t) ∷ m) d =
    (lookup-expire_all-none now skew k m d.0, expire_all-Distinct now skew m d.1)

-- The passage of time frees capacity and takes none.
pub visitor_count-expire_all :
    (now skew : ℕ) (m : List (Text × Ticket))
    → visitor_count (expire_all now skew m) ≤ visitor_count m
unfolding visitor_count expire_all count expire
visitor_count-expire_all now skew [] = omega arith
visitor_count-expire_all now skew ((k, t) ∷ m) = ground (arith, visitor_count-expire_all now skew m)

pub lease_count-expire_all :
    (now skew : ℕ) (m : List (Text × Ticket)) → lease_count (expire_all now skew m) ≤ lease_count m
unfolding lease_count expire_all count expire
lease_count-expire_all now skew [] = omega arith
lease_count-expire_all now skew ((k, t) ∷ m) = ground (arith, lease_count-expire_all now skew m)

module _ (k : Text) (t : Ticket) (m : List (Text × Ticket)) where
  pub visitor_count-insert-le : visitor_count (insert k t m) ≤ visitor_count m + 1
  unfolding visitor_count
  visitor_count-insert-le = count-insert-le _ k t m

  pub lease_count-insert-le : lease_count (insert k t m) ≤ lease_count m + 1
  unfolding lease_count
  lease_count-insert-le = count-insert-le _ k t m

  -- A ticket that is written over a visitor's takes no more capacity.
  pub visitor_count-insert_over :
      (w : Ticket)
      → lookup k m ≡ some w
      → is_expired w.state ≡ false
      → visitor_count (insert k t m) ≤ visitor_count m
  unfolding visitor_count
  visitor_count-insert_over w h e = count-insert_over _ k t w m h (ground arith)

  pub lease_count-insert_over :
      (w : Ticket)
      → lookup k m ≡ some w
      → is_lease w.state ≡ true
      → lease_count (insert k t m) ≤ lease_count m
  unfolding lease_count
  lease_count-insert_over w h e = count-insert_over _ k t w m h (ground arith)

-- Writing a ticket that is no lease adds no lease.
pub lease_count-insert_other :
    (k : Text) (t : Ticket) (m : List (Text × Ticket))
    → is_lease t.state ≡ false
    → lease_count (insert k t m) ≤ lease_count m
unfolding lease_count insert count
lease_count-insert_other k t [] h = ground arith
lease_count-insert_other k t ((j, w) ∷ m) h = ground (arith, lease_count-insert_other k t m h)
