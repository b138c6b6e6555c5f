-- ===== src/Control/Routing/Uniqueness.antt =====
-- internal/control/config.go: a validated configuration routes a path to one room.
use waiting_room.Base.{
  ◌+◌, ◌≤◌, ◌≡◌, inl, inr, refl, sym, ap, ap₂, ◌∙◌, subst, arith, Bool-cases, Bool, true, false,
  not, ◌&&◌, ◌||◌, List, [], ◌∷◌, ◌++◌, none, some, Text, text_eq, text_eq_iff, any, count,
  count-append,
}
use waiting_room.Control.Paths
use waiting_room.Control.Paths.{valid_hostname, valid_path, prefix_matches}
use waiting_room.Control.Paths.Prefixes.{prefix_matches_comparable}
use waiting_room.Control.Config.{
  Config, Room, Url, Library, elements, prefixes_conflict, conflicts, validate_rooms, validate,
}
use waiting_room.Control.Routing.{
  Decision, Reason, serves, first_room, exclusions, protections, routed, match_url,
}

-- A room of the host one of whose prefixes, by `prefixes`, matches the path.
abbrev pub takes : (Room → List Text) → Text → Text → Room → Bool
takes prefixes host path r = serves host r && any (λ p. prefix_matches p path) (prefixes r)

any_one :
    (a path : Text) (ys : List Text)
    → prefix_matches a path ≡ true
    → any (λ b. prefix_matches b path) ys ≡ true
    → any (λ b. prefix_matches a b || prefix_matches b a) ys ≡ true
unfolding any
any_one a path [] h k = k
any_one a path (b ∷ ys) h k = ground (arith, any_one a path ys, prefix_matches_comparable a b path)

any_pair :
    (path : Text) (xs ys : List Text)
    → any (λ a. prefix_matches a path) xs ≡ true
    → any (λ b. prefix_matches b path) ys ≡ true
    → prefixes_conflict xs ys ≡ true
unfolding any prefixes_conflict
any_pair path [] ys h k = h
any_pair path (a ∷ xs) ys h k = ground (arith, any_pair path xs ys, any_one a path ys)

serves_host :
    (host : Text) (r : Room) → serves host r ≡ true → (r.active ≡ true) × (r.hostname ≡ host)
unfolding serves
serves_host host r h = ground (arith, text_eq_iff r.hostname host)

same_host :
    (host : Text) (r o : Room)
    → serves host r ≡ true
    → serves host o ≡ true
    → (not o.active || not (text_eq o.hostname r.hostname)) ≡ false
same_host host r o h k =
    let (ra, rh) = serves_host host r h in
    let (oa, oh) = serves_host host o k in
    ground (arith, text_eq_iff o.hostname r.hostname, oh ∙ sym rh)

none_before :
    (host path : Text) (r : Room) (before : List Room)
    → takes protections host path r ≡ true
    → conflicts r before ≡ false
    → count (takes protections host path) before ≡ 0
unfolding conflicts count
none_before host path r [] h k = refl
none_before host path r (o ∷ os) h k = ground (
  arith,
  none_before host path r os h,
  same_host host r o,
  any_pair path r.protect_prefixes o.protect_prefixes,
)

validate_rooms_next :
    (lib : Library) (profile : Text) (ids public_ids : List Text) (before : List Room) (r : Room)
    (rs : List Room)
    → validate_rooms lib profile ids public_ids before (r ∷ rs) ≡ none
    → (validate_rooms lib profile (r.id ∷ ids) (r.public_id ∷ public_ids) (before ++ (r ∷ [])) rs
        ≡ none)
      × (r.active ≡ true → conflicts r before ≡ false)
unfolding validate_rooms
validate_rooms_next lib profile ids public_ids before r rs v = (ground arith, λ a. ground arith)

takes_active :
    (prefixes : Room → List Text) (host path : Text) (r : Room)
    → takes prefixes host path r ≡ true
    → r.active ≡ true
takes_active prefixes host path r h = ground (arith, serves_host host r)

at_most_one :
    (lib : Library) (profile host path : Text) (ids public_ids : List Text) (before rs : List Room)
    → count (takes protections host path) before ≤ 1
    → validate_rooms lib profile ids public_ids before rs ≡ none
    → count (takes protections host path) before + count (takes protections host path) rs ≤ 1
unfolding count
at_most_one lib profile host path ids public_ids before [] h v = omega arith
at_most_one lib profile host path ids public_ids before (r ∷ rs) h v =
    let (w, apart) = validate_rooms_next lib profile ids public_ids before r rs v in
    let next =
      at_most_one lib profile host path (r.id ∷ ids) (r.public_id ∷ public_ids) (before ++ (r ∷ []))
        rs in
    let added = count-append (takes protections host path) before (r ∷ []) in
    elim (Bool-cases (takes protections host path r)) [
      | inl t ↦
          (let first =
              none_before host path r before t (apart (takes_active protections host path r t)) in
            let l : count (takes protections host path) (before ++ (r ∷ [])) ≤ 1 = ground arith in
            ground (arith, next l w))
      | inr f ↦
          (let l : count (takes protections host path) (before ++ (r ∷ [])) ≤ 1 = ground arith in
            ground (arith, next l w))
    ]

validate_rooms_of :
    (lib : Library) (c : Config)
    → validate lib c ≡ none
    → validate_rooms lib c.profile [] [] [] (elements c.rooms) ≡ none
unfolding validate
validate_rooms_of lib c v = ground arith

-- Of a configuration that `Validate` accepts, at most one active room of a hostname has a protected
-- prefix that matches a path.
pub protect_unique :
    (lib : Library) (c : Config) (host path : Text)
    → validate lib c ≡ none
    → count (takes protections host path) (elements c.rooms) ≤ 1
unfolding count
protect_unique lib c host path v = ground (
  arith,
  at_most_one lib c.profile host path [] [] [] (elements c.rooms) (omega arith)
      (validate_rooms_of lib c v),
)

first_room-none :
    (prefixes : Room → List Text) (host path : Text) (rs : List Room)
    → count (takes prefixes host path) rs ≡ 0
    → first_room prefixes host path rs ≡ none
unfolding first_room count
first_room-none prefixes host path [] h = refl
first_room-none prefixes host path (r ∷ rs) h =
    ground (arith, first_room-none prefixes host path rs)

counted :
    (prefixes : Room → List Text) (host path : Text) (xs : List Room) (r : Room) (ys : List Room)
    → takes prefixes host path r ≡ true
    → 1 ≤ count (takes prefixes host path) (xs ++ (r ∷ ys))
unfolding count
counted prefixes host path [] r ys t = ground arith
counted prefixes host path (x ∷ xs) r ys t = omega (arith, counted prefixes host path xs r ys t)

first_room_at :
    (prefixes : Room → List Text) (host path : Text) (xs : List Room) (r : Room) (ys : List Room)
    → takes prefixes host path r ≡ true
    → count (takes prefixes host path) (xs ++ (r ∷ ys)) ≤ 1
    → first_room prefixes host path (xs ++ (r ∷ ys)) ≡ some r
unfolding first_room count
first_room_at prefixes host path [] r ys t h = ground arith
first_room_at prefixes host path (x ∷ xs) r ys t h =
    ground (arith, first_room_at prefixes host path xs r ys t, counted prefixes host path xs r ys t)

-- A URL that is routed by the rooms: canonical and not of a reserved path.
pub record IsRoutable (host : Text) (u : Url) : Type 0 where
  pub host_valid : valid_hostname host ≡ true
  pub path_valid : valid_path u.path ≡ true
  pub plain_path : u.raw_path ≡ []
  pub plain_url : u.opaque ≡ []
  pub unreserved : Paths.reserved u.path ≡ false

canonical :
    (host : Text) (u : Url)
    → IsRoutable host u
    → (not (valid_hostname host)
        || not (valid_path u.path)
        || not (text_eq u.raw_path [])
        || not (text_eq u.opaque []))
      ≡ false
canonical host u h = ground (
  arith,
  h.host_valid,
  h.path_valid,
  (text_eq_iff u.raw_path []).1 h.plain_path,
  (text_eq_iff u.opaque []).1 h.plain_url,
)

match_url-routed :
    (c : Config) (host : Text) (u : Url)
    → IsRoutable host u
    → match_url c host (some u)
      ≡ routed
          (first_room exclusions host u.path (elements c.rooms))
          (first_room protections host u.path (elements c.rooms))
unfolding match_url
match_url-routed c host u h = rw (canonical host u h) (rw h.unreserved refl)

-- Where `Validate` accepts the configuration, a canonical URL of no reserved path is protected by
-- whichever active room of the host has a protected prefix that matches the path, wherever the room
-- stands in the configuration, if no active room of the host excludes the path.
pub match_url_protects :
    (lib : Library) (c : Config) (host : Text) (u : Url) (xs : List Room) (r : Room)
    (ys : List Room)
    → validate lib c ≡ none
    → c.rooms ≡ some (xs ++ (r ∷ ys))
    → IsRoutable host u
    → count (takes exclusions host u.path) (xs ++ (r ∷ ys)) ≡ 0
    → takes protections host u.path r ≡ true
    → match_url c host (some u)
      ≡ record { decision = Decision.protected; room_id = r.id; reason = Reason.protect_prefix }
match_url_protects lib c host u xs r ys v e ok none' t =
    let rooms = ap elements e in
    let one =
      subst (λ rs. count (takes protections host u.path) rs ≤ 1) rooms
        (protect_unique lib c host u.path v) in
    match_url-routed c host u ok
    ∙ ap₂ routed
        (ap (first_room exclusions host u.path) rooms
          ∙ first_room-none exclusions host u.path (xs ++ (r ∷ ys)) none')
        (ap (first_room protections host u.path) rooms
          ∙ first_room_at protections host u.path xs r ys t one)
