-- ===== src/Queue/Model/Promoting.antt =====
-- internal/queue/model/model.go: the loop of `Promote`.
use waiting_room.Base.{
  ℕ, suc, ◌≤◌, ◌≡◌, refl, ap, true, false, not, ◌&&◌, List, [], ◌∷◌, none, some, arith, All,
  All-map, Distinct, Text, subst, sym, ◌∙◌, leb, ◌||◌, zero, text_eq, lookup, insert, Bool-cases,
  inl, inr, text_eq_iff, text_eq_sound, lookup-insert, length,
}
use waiting_room.Queue.Policy.{Candidate, eligible}
use waiting_room.Queue.Policy.Order.{eligible-All, length-eligible-le}
use waiting_room.Queue.Model.Tickets.{Keyed}
use waiting_room.Queue.Model.{
  Model, Mode, Ticket, is_expired, is_candidate, is_auto, is_draining, candidates, promote_one,
  or_zero, promote_all, readied, promote, budget,
}

-- The map has a live ticket for the candidate, under its own id.
abbrev pub Known : List (Text × Ticket) → Candidate → Type 0
Known m c = (t : Ticket) × (lookup c.id m ≡ some t) × (is_expired t.state ≡ false) × (t.id ≡ c.id)

Known-cons :
    (k : Text) (t : Ticket) (m : List (Text × Ticket)) (c : Candidate)
    → lookup k m ≡ none
    → Known m c
    → Known ((k, t) ∷ m) c
unfolding lookup
Known-cons k t m c fresh (u, found, live, id) = elim (Bool-cases (text_eq k c.id)) [
  | inl same ↦
      let clash : lookup k m ≡ some u =
        subst (λ x. lookup x m ≡ some u) (sym (text_eq_sound k c.id same)) found in
      absurd (cc (clash, fresh))
  | inr other ↦ (u, rw other found, live, id)
]

candidates-Known :
    (mode : Mode) (cutoff : ℕ) (m : List (Text × Ticket))
    → All Keyed m
    → Distinct m
    → All (Known m) (candidates mode cutoff m)
unfolding candidates lookup
candidates-Known mode cutoff [] k d = tt
candidates-Known mode cutoff ((j, t) ∷ m) k d =
    let rest =
      All-map (Known m) (Known ((j, t) ∷ m)) (λ c. Known-cons j t m c d.0) _
        (candidates-Known mode cutoff m k.1 d.1) in
    elim (Bool-cases (is_candidate mode cutoff t)) [
      | inl yes' ↦ rw yes' (here yes', rest)
      | inr no' ↦ rw no' rest
    ]
  where
    here :
        is_candidate mode cutoff t ≡ true
        → (u : Ticket) × (lookup t.id ((j, t) ∷ m) ≡ some u)
          × (is_expired u.state ≡ false)
          × (u.id ≡ t.id)
    here e = (t, ground (arith, text_eq_iff j t.id), ground arith, refl)

pub promote_one-tickets :
    (c : Candidate) (m : Model) (u : Ticket)
    → lookup c.id m.tickets ≡ some u
    → u.id ≡ c.id
    → (promote_one c m).0.tickets ≡ insert c.id (readied m u) m.tickets
unfolding promote_one readied
promote_one-tickets c m u found id = rw (found, id)

pub promote_one_id : (c : Candidate) (m : Model) → Known m.tickets c → (promote_one c m).1.id ≡ c.id
unfolding promote_one readied
promote_one_id c m (t, found, live, id) = ap (λ o. (or_zero o).id) found ∙ id

pub promote_one-Known :
    (c d : Candidate) (m : Model)
    → Known m.tickets c
    → Known m.tickets d
    → Known (promote_one c m).0.tickets d
promote_one-Known c d m (u, found, live, id) (w, found', live', id') =
    rw (promote_one-tickets c m u found id) (elim (Bool-cases (text_eq c.id d.id)) [
      | inl same ↦ (
        readied m u,
        rw (lookup-insert c.id d.id (readied m u) m.tickets, same),
        unfold readied in refl,
        unfold readied in id ∙ text_eq_sound c.id d.id same,
      )
      | inr other ↦
          (w, rw (lookup-insert c.id d.id (readied m u) m.tickets, other) found', live', id')
    ])

-- The rule for the loop: `P n` says what holds while at most `n` more rounds may follow, and each
-- round, of a candidate that the map knows, uses one up.
pub promote_all_inv {ℓ} :
    (P : ℕ → Model → Type ℓ)
    → ((n : ℕ) (c : Candidate) (m : Model)
        → Known m.tickets c
        → P (suc n) m
        → P n (promote_one c m).0)
    → (cs : List Candidate) (n : ℕ) (m : Model) → length cs ≤ n
    → All (Known m.tickets) cs
    → P n m
    → (k : ℕ) × P k (promote_all cs m).0
unfolding promote_all
promote_all_inv P keep [] n m short known p = (n, p)
promote_all_inv P keep (c ∷ cs) zero m short known p = absurd (omega arith)
promote_all_inv P keep (c ∷ cs) (suc n) m short known p =
    promote_all_inv P keep cs n (promote_one c m).0 (omega arith)
      (All-map _ _ (λ d h. promote_one-Known c d m known.0 h) cs known.1) (keep n c m known.0 p)

-- The tickets that `Promote` goes through.
unfoldable pub chosen : ℕ → Model → List Candidate
chosen limit m = eligible (candidates m.mode m.cutoff m.tickets) m.now (budget limit m)

pub chosen-Known :
    (limit : ℕ) (m : Model)
    → All Keyed m.tickets
    → Distinct m.tickets
    → All (Known m.tickets) (chosen limit m)
unfolding chosen
chosen-Known limit m k d = eligible-All _ _ m.now _ (candidates-Known m.mode m.cutoff m.tickets k d)

pub promote_cases {ℓ} :
    (P : Model × List Ticket → Type ℓ) (limit : ℕ) (m : Model)
    → P (m, [])
    → ((is_auto m.mode || is_draining m.mode) ≡ true → P (promote_all (chosen limit m) m))
    → P (promote limit m)
unfolding promote chosen
promote_cases P limit m idle run =
    elim (Bool-cases (not (is_auto m.mode) && not (is_draining m.mode))) [
      | inl closed ↦ rw closed idle
      | inr opened ↦ rw opened (elim (Bool-cases (leb (budget limit m) 0)) [
        | inl spent ↦ rw spent idle
        | inr left ↦ rw left (run (ground arith))
      ])
    ]

-- What each round keeps, `Promote` keeps, whatever the mode and the limit.
pub promote_inv {ℓ} :
    (P : ℕ → Model → Type ℓ)
    → ((n : ℕ) (c : Candidate) (m : Model)
        → Known m.tickets c
        → P (suc n) m
        → P n (promote_one c m).0)
    → (limit : ℕ) (m : Model) → All Keyed m.tickets
    → Distinct m.tickets
    → P (budget limit m) m
    → (k : ℕ) × P k (promote limit m).0
unfolding chosen
promote_inv P keep limit m k d p =
    promote_cases (λ r. (k : ℕ) × P k r.0) limit m (budget limit m, p)
      (λ opened.
        promote_all_inv P keep (chosen limit m) (budget limit m) m
          (unfold chosen in length-eligible-le _ m.now (budget limit m)) (chosen-Known limit m k d)
          p)
