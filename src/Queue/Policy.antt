-- ===== src/Queue/Policy.antt =====
-- internal/policy/fifo.go: which waiting tickets come next.
pub mod Order
use waiting_room.Base.{
  ℕ, Bool, List, [], ◌∷◌, if◌then◌else◌, ◌==◌, ltb, leb, keep, take, Text, text_eq, text_lt, codes,
  Result, ok, err, not,
}

pub data PolicyError : Type 0 where
  unsupported : PolicyError

pub record Candidate : Type 0 where
  pub id : Text
  pub sequence : ℕ
  pub expires_at : ℕ

pub record Capability : Type 0 where
  pub kind : Text
  pub schema_version : ℕ

pub data Policy : Type 0 where
  fifo : Policy

pub capabilities : List Capability
capabilities = record { kind = codes "fifo"; schema_version = 1 } ∷ []

pub new : Text → Result PolicyError Policy
new kind = if not (text_eq kind (codes "fifo")) then err unsupported else ok fifo

-- The comparison that `Eligible` hands to `sort.Slice`.
unfoldable pub before : Candidate → Candidate → Bool
before a b = if a.sequence == b.sequence then text_lt a.id b.id else ltb a.sequence b.sequence

-- `sort.Slice`, whose result this order decides up to entries that it does not tell apart.
unfoldable pub sorted_insert : Candidate → List Candidate → List Candidate
sorted_insert c [] = c ∷ []
sorted_insert c (d ∷ ds) = if before d c then d ∷ sorted_insert c ds else c ∷ d ∷ ds

unfoldable pub sort : List Candidate → List Candidate
sort [] = []
sort (c ∷ cs) = sorted_insert c (sort cs)

abbrev pub is_alive : ℕ → Candidate → Bool
is_alive now c = ltb now c.expires_at

-- A limit below 0 selects nothing, as 0 does.
unfoldable pub eligible : List Candidate → ℕ → ℕ → List Candidate
eligible candidates now limit =
    if leb limit 0 then [] else take limit (sort (keep (is_alive now) candidates))
