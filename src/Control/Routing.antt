-- ===== src/Control/Routing.antt =====
-- internal/control/config.go: MatchURL, which routes a request to a room.
pub mod Uniqueness
use waiting_room.Base.{
  ℕ, ◌≡◌, ◌⊎◌, inl, inr, refl, sym, ap, ◌∙◌, subst, arith, Bool-cases, Option-cases, Bool, true,
  false, not, ◌&&◌, ◌||◌, List, [], ◌∷◌, ◌++◌, Option, none, some, if◌then◌else◌, Text, codes,
  text_eq, any,
}
use waiting_room.Control.Paths
use waiting_room.Control.Paths.{valid_hostname, valid_path, prefix_matches}
use waiting_room.Control.Config.{Config, Room, Url, elements}

pub data Decision : Type 0 where
  invalid reserved excluded protected unprotected : Decision

pub data Reason : Type 0 where
  noncanonical_url internal_namespace exclude_prefix protect_prefix no_active_rule : Reason

pub record Match : Type 0 where
  pub decision : Decision
  pub room_id : Text
  pub reason : Reason

unfoldable pub serves : Text → Room → Bool
serves host r = r.active && text_eq r.hostname host

-- The first room of the host with a prefix, by `prefixes`, that matches the path.
unfoldable pub first_room : (Room → List Text) → Text → Text → List Room → Option Room
first_room prefixes host path [] = none
first_room prefixes host path (r ∷ rs) =
    let rest = first_room prefixes host path rs in
    if not (serves host r)
    then rest
    else if any (λ p. prefix_matches p path) (prefixes r)
    then some r
    else rest

abbrev pub exclusions : Room → List Text
exclusions r = elements r.exclude_prefixes

abbrev pub protections : Room → List Text
protections r = r.protect_prefixes

-- The outcome of the two loops.
abbrev pub routed : Option Room → Option Room → Match
routed (some r) p = record {
  decision = Decision.excluded;
  room_id = r.id;
  reason = Reason.exclude_prefix;
}
routed none (some r) = record {
  decision = Decision.protected;
  room_id = r.id;
  reason = Reason.protect_prefix;
}
routed none none = record {
  decision = Decision.unprotected;
  room_id = [];
  reason = Reason.no_active_rule;
}

-- `none` is a nil URL.
unfoldable pub match_url : Config → Text → Option Url → Match
match_url c host none = record {
  decision = Decision.invalid;
  room_id = [];
  reason = Reason.noncanonical_url;
}
match_url c host (some u) =
    if not (valid_hostname host)
      || not (valid_path u.path)
      || not (text_eq u.raw_path [])
      || not (text_eq u.opaque [])
    then record { decision = Decision.invalid; room_id = []; reason = Reason.noncanonical_url }
    else if Paths.reserved u.path
    then record { decision = Decision.reserved; room_id = []; reason = Reason.internal_namespace }
    else routed (first_room exclusions host u.path (elements c.rooms))
        (first_room protections host u.path (elements c.rooms))
