-- ===== src/Queue/Model/Selection.antt =====
-- internal/queue/model/model.go: whom `Promote` makes ready, and in which order.
use mathlib.Core.List.{Perm}
use waiting_room.Queue.Policy.{is_alive}
use waiting_room.Queue.Policy.Order.{IsSorted, eligible_fifo}
use waiting_room.Base.{
  ap, ap₂, ◌∙◌, subst, any, Option, some, Text, text_eq, text_eq_sound, lookup, lookup-insert,
  Bool-cases, inl, inr, if◌then◌else◌, ℕ, ◌<◌, ◌≡◌, refl, keep, map, min, true, ◌||◌, List, [], ◌∷◌,
  ◌++◌, arith, All, All-map, length,
}
use waiting_room.Queue.Model.Promoting.{
  Known, chosen, chosen-Known, promote_one-Known, promote_one_id, promote_one-tickets,
}
use waiting_room.Queue.Model.Invariant.{Inv}
use waiting_room.Queue.Policy.{Candidate}
use waiting_room.Queue.Model.{
  Model, Ticket, ticket_of, promote_all, is_draining, is_auto, candidates, State, readied,
  promote_one, promote, budget,
}

promote_all_out :
    (cs : List Candidate) (m : Model)
    → All (Known m.tickets) cs
    → let out = (promote_all cs m).1 in
      (map (λ t. t.id) out ≡ map (λ c. c.id) cs) × All (λ t. t.state ≡ State.ready) out
unfolding promote_all
promote_all_out [] m known = (refl, tt)
promote_all_out (c ∷ cs) m known =
    let rest = All-map _ _ (λ d h. promote_one-Known c d m known.0 h) cs known.1 in
    let (ids, ready) = promote_all_out cs (promote_one c m).0 rest in
    (ap₂ (◌∷◌) (promote_one_id c m known.0) ids, (unfold promote_one readied in refl, ready))

readied_twice :
    (c : Candidate) (m : Model) (t : Ticket)
    → readied (promote_one c m).0 (readied m t) ≡ readied m t
unfolding promote_one readied
readied_twice c m t = refl

readied_later :
    (c : Candidate) (m : Model) (t : Ticket) → readied (promote_one c m).0 t ≡ readied m t
unfolding promote_one readied
readied_later c m t = refl

-- The ticket of an id after a promotion of the candidates.
abbrev written : List Candidate → Model → Text → Option Ticket
written cs m id =
    if any (λ c. text_eq c.id id) cs
    then some (readied m (ticket_of m.tickets id))
    else lookup id m.tickets

-- One candidate more.
written-cons :
    (c : Candidate) (cs : List Candidate) (m : Model) (id : Text)
    → Known m.tickets c
    → written cs (promote_one c m).0 id ≡ written (c ∷ cs) m id
unfolding any
written-cons c cs m id (u, found, live, own) =
    let m' = (promote_one c m).0 in
    let tickets : lookup id m'.tickets
        ≡ (if text_eq c.id id then some (readied m u) else lookup id m.tickets) =
      ap (lookup id) (promote_one-tickets c m u found own)
      ∙ lookup-insert c.id id (readied m u) m.tickets in
    elim (Bool-cases (text_eq c.id id)) [
      | inl here ↦
          let now_is : lookup id m'.tickets ≡ some (readied m u) = rw here at tickets in
          let was : lookup id m.tickets ≡ some u =
            subst (λ x. lookup x m.tickets ≡ some u) (text_eq_sound c.id id here) found in
          elim (Bool-cases (any (λ d. text_eq d.id id) cs)) [
            | inl again ↦ rw (here, again) (rw (now_is, was) (ap some (readied_twice c m u)))
            | inr once ↦ rw (here, once) (rw (now_is, was) refl)
          ]
      | inr other ↦
          let kept : lookup id m'.tickets ≡ lookup id m.tickets = rw other at tickets in
          elim (Bool-cases (any (λ d. text_eq d.id id) cs)) [
            | inl later ↦
                rw (other, later) (rw kept (ap some (readied_later c m (ticket_of m.tickets id))))
            | inr out ↦ rw (other, out) kept
          ]
    ]

promote_all-written :
    (cs : List Candidate) (m : Model) (id : Text)
    → All (Known m.tickets) cs
    → lookup id (promote_all cs m).0.tickets ≡ written cs m id
unfolding promote_all any
promote_all-written [] m id known = refl
promote_all-written (c ∷ cs) m id known =
    let rest = All-map _ _ (λ d h. promote_one-Known c d m known.0 h) cs known.1 in
    promote_all-written cs (promote_one c m).0 id rest ∙ written-cons c cs m id known.0

promote_open :
    (limit : ℕ) (m : Model)
    → (is_auto m.mode || is_draining m.mode) ≡ true
    → 0 < budget limit m
    → promote limit m ≡ promote_all (chosen limit m) m
unfolding promote chosen
promote_open limit m opened left = ground arith

-- Where the invariant Inv holds, an open queue with budget left promotes first in, first out the
-- waiting tickets whose wait has not run out: with some rest, the chosen candidates are the live ones,
-- each once, in the order of their sequence numbers, and they stop only at the budget or the end. The
-- result has their ids, in that order, all ready; and in the model after the call the ticket of a
-- chosen id is the one that was there, readied, and the ticket of any other id is what it was.
pub promote_fifo :
    (limit : ℕ) (m : Model) (id : Text)
    → Inv m
    → (is_auto m.mode || is_draining m.mode) ≡ true
    → 0 < budget limit m
    → let out = (promote limit m).1 in
      let live = keep (is_alive m.now) (candidates m.mode m.cutoff m.tickets) in
      (map (λ t. t.id) out ≡ map (λ c. c.id) (chosen limit m))
      × All (λ t. t.state ≡ State.ready) out
      × (rest : List Candidate) × Perm (chosen limit m ++ rest) live
      × IsSorted (chosen limit m ++ rest)
      × (length (chosen limit m) ≡ min (budget limit m) (length live))
      × (lookup id (promote limit m).0.tickets ≡ (
          if any (λ c. text_eq c.id id) (chosen limit m)
          then some (readied m (ticket_of m.tickets id))
          else lookup id m.tickets))
promote_fifo limit m id v opened left =
    let (rest, same, sorted, size) =
      eligible_fifo (candidates m.mode m.cutoff m.tickets) m.now (budget limit m) left in
    let (ids, ready) =
      promote_all_out (chosen limit m) m (chosen-Known limit m v.keyed v.distinct) in
    (
      rw (promote_open limit m opened left) ids,
      rw (promote_open limit m opened left) ready,
      rest,
      unfold chosen in same,
      unfold chosen in sorted,
      unfold chosen in size,
      rw (promote_open limit m opened left)
          (promote_all-written (chosen limit m) m id (chosen-Known limit m v.keyed v.distinct)),
    )
