-- ===== src/Control/Config.antt =====
-- internal/control/config.go: the configuration and its validation. What the code calls of Go's
-- library is the interface Library: the runes of a valid UTF-8 string, the control characters,
-- `strings.TrimSpace`, `url.Parse` with the parts that are read, and `strconv.Atoi`; `LogoBytes` is
-- its field logo_ok.
use waiting_room.Base.{
  ℕ, Bool, true, false, not, ◌&&◌, ◌||◌, List, [], ◌∷◌, ◌++◌, Option, none, some, ◌==◌, leb, ltb,
  if◌then◌else◌, Text, codes, text_eq, decimal, length, all, any, within,
}
use waiting_room.Base.Int.{ℤ, pos, negsuc, ltb_ℤ, leb_ℤ}
use waiting_room.Control.Paths.{valid_hostname, valid_path, prefix_matches, reserved, trim_slash}

pub record Limits : Type 0 where
  pub max_active_admission_leases : ℤ
  pub admissions_per_minute : ℤ
  pub admission_ttl_seconds : ℤ

pub record QueuePolicy : Type 0 where
  pub kind : Text
  pub ticket_idle_ttl_seconds : ℤ
  pub ticket_max_ttl_seconds : ℤ
  pub ready_ttl_seconds : ℤ

pub record Theme : Type 0 where
  pub template_id : Text
  pub title : Text
  pub message : Text
  pub primary_color : Text
  pub locale : Text
  pub show_estimated_wait : Bool
  pub logo_image : Text

-- `exclude_prefixes` tells the nil slice from the empty one.
pub record Room : Type 0 where
  pub id : Text
  pub public_id : Text
  pub name : Text
  pub hostname : Text
  pub origin : Text
  pub health_url : Text
  pub protect_prefixes : List Text
  pub exclude_prefixes : Option (List Text)
  pub queue_policy : QueuePolicy
  pub limits : Limits
  pub theme : Theme
  pub active : Bool

-- `rooms` tells the nil slice from the empty one.
pub record Config : Type 0 where
  pub schema_version : ℤ
  pub revision : ℤ
  pub profile : Text
  pub region_id : Text
  pub rooms : Option (List Room)

pub data Error : Type 0 where
  invalid conflict : Error

-- A parsed URL. `user` says whether it has user information.
pub record Url : Type 0 where
  pub scheme : Text
  pub user : Bool
  pub host : Text
  pub hostname : Text
  pub port : Text
  pub path : Text
  pub raw_path : Text
  pub raw_query : Text
  pub force_query : Bool
  pub fragment : Text
  pub opaque : Text

pub record Library : Type 0 where
  pub runes : Text → Option (List ℕ)
  pub is_control : ℕ → Bool
  pub trim_space : Text → Text
  pub parse_url : Text → Option Url
  pub atoi : Text → Option ℤ
  pub logo_ok : Text → Bool

abbrev pub elements {ℓ} : {A : Type ℓ} → Option (List A) → List A
elements none = []
elements (some xs) = xs

abbrev pub is_nil {ℓ} : {A : Type ℓ} → Option A → Bool
is_nil none = true
is_nil (some a) = false

abbrev lower : ℕ → Bool
lower c = within b'a' b'z' c

abbrev digit : ℕ → Bool
digit c = within b'0' b'9' c

-- `^[a-z][a-z0-9_-]{0,63}$`
unfoldable pub id_matches : Text → Bool
id_matches [] = false
id_matches (c ∷ s) =
    lower c && leb (length s) 63 && all (λ d. lower d || digit d || d == b'_' || d == b'-') s

-- `^[a-z2-7]{20}$`
unfoldable pub public_id_matches : Text → Bool
public_id_matches s = length s == 20 && all (λ c. lower c || within b'2' b'7' c) s

-- `^[a-z][a-z0-9-]{0,62}$`
unfoldable pub region_matches : Text → Bool
region_matches [] = false
region_matches (c ∷ s) =
    lower c && leb (length s) 62 && all (λ d. lower d || digit d || d == b'-') s

-- `^#[a-fA-F0-9]{6}$`
unfoldable pub color_matches : Text → Bool
color_matches [] = false
color_matches (c ∷ s) =
    c == b'#' && length s == 6 && all (λ d. within b'a' b'f' d || within b'A' b'F' d || digit d) s

abbrev pub outside : ℕ → ℕ → ℤ → Bool
outside lo hi x = ltb_ℤ x (pos lo) || ltb_ℤ (pos hi) x

abbrev pub standard : Text
standard = codes "standard-10k"

abbrev pub high_scale : Text
high_scale = codes "high-scale-100k"

abbrev pub refused_limits : Limits → ℕ → ℕ → Bool
refused_limits l leases rate =
    outside 1 leases l.max_active_admission_leases
    || outside 1 rate l.admissions_per_minute
    || outside 60 3600 l.admission_ttl_seconds

abbrev pub when : Bool → Option Error
when b = if b then some Error.invalid else none

unfoldable pub validate_limits : Limits → Text → Option Error
validate_limits l profile =
    if text_eq profile high_scale
    then when (refused_limits l 100000 60000)
    else if not (text_eq profile standard)
    then some Error.invalid
    else when (refused_limits l 10000 6000)

-- The loop over prefixes with the canonical ones seen.
unfoldable pub validate_prefixes : List Text → List Text → Bool
validate_prefixes seen [] = true
validate_prefixes seen (p ∷ ps) =
    let canonical = trim_slash p in
    let rest = validate_prefixes (canonical ∷ seen) ps in
    not (not (valid_path p) || reserved p || any (text_eq canonical) seen) && rest

abbrev pub refused_policy : QueuePolicy → Bool
refused_policy p =
    not (text_eq p.kind (codes "fifo"))
    || outside 60 600 p.ticket_idle_ttl_seconds
    || outside 600 86400 p.ticket_max_ttl_seconds
    || ltb_ℤ p.ticket_max_ttl_seconds p.ticket_idle_ttl_seconds
    || outside 1 120 p.ready_ttl_seconds

-- The two inner loops over prefixes.
unfoldable pub prefixes_conflict : List Text → List Text → Bool
prefixes_conflict xs ys = any (λ a. any (λ b. prefix_matches a b || prefix_matches b a) ys) xs

unfoldable pub conflicts : Room → List Room → Bool
conflicts r [] = false
conflicts r (o ∷ os) =
    let rest = conflicts r os in
    if not o.active || not (text_eq o.hostname r.hostname)
    then rest
    else prefixes_conflict r.protect_prefixes o.protect_prefixes || rest

module _ (lib : Library) where
  unfoldable pub plain : Text → ℕ → Bool → Bool
  plain s max multiline = elim (lib.runes s) [
    | none ↦ false
    | some cs ↦
        leb (length cs) max
        && all
            (λ c. not (
              c == b'<'
              || c == b'>'
              || (lib.is_control c && not (multiline && (c == b'\n' || c == b'\t')))))
            cs
  ]

  abbrev port_ok : Text → Bool
  port_ok [] = true
  port_ok (c ∷ p) = elim (lib.atoi (c ∷ p)) [
    | none ↦ false
    | some (pos n) ↦ within 1 65535 n && text_eq (decimal n) (c ∷ p)
    | some (negsuc n) ↦ false
  ]

  unfoldable pub valid_origin : Text → Option Url
  valid_origin raw = elim (lib.parse_url raw) [
    | none ↦ none
    | some u ↦
        if not (text_eq u.scheme (codes "https"))
          || u.user
          || not (valid_hostname u.hostname)
          || not (text_eq u.fragment [])
          || not (text_eq u.raw_query [])
          || u.force_query
          || not (text_eq u.opaque [])
          || not (text_eq u.raw_path [])
        then none
        else if port_ok u.port
        then some u
        else none
  ]

  abbrev pub urls_ok : Room → Bool
  urls_ok r = elim (valid_origin r.origin) [
    | none ↦ false
    | some o ↦
        not (
          (not (text_eq o.path []) && not (text_eq o.path (codes "/")))
          || text_eq o.hostname r.hostname)
        && elim (valid_origin r.health_url) [
          | none ↦ false
          | some h ↦ text_eq h.host o.host && valid_path h.path
        ]
  ]

  abbrev pub refused_prefixes : Room → Bool
  refused_prefixes r =
      length r.protect_prefixes == 0
      || ltb 32 (length r.protect_prefixes)
      || is_nil r.exclude_prefixes
      || ltb 32 (length (elements r.exclude_prefixes))

  abbrev pub refused_theme : Theme → Bool
  refused_theme t =
      not (text_eq t.template_id (codes "calm"))
      || not (plain t.title 120 false)
      || not (plain t.message 1000 true)
      || not (color_matches t.primary_color)
      || (not (text_eq t.locale (codes "ko")) && not (text_eq t.locale (codes "en")))

  abbrev pub refused_names : Room → Bool
  refused_names r =
      not (id_matches r.id)
      || not (public_id_matches r.public_id)
      || text_eq (lib.trim_space r.name) []
      || not (plain r.name 120 false)
      || not (valid_hostname r.hostname)

  unfoldable pub validate_room : Room → Text → Option Error
  validate_room r profile =
      if refused_names r
      then some Error.invalid
      else if not (urls_ok r)
      then some Error.invalid
      else if refused_prefixes r
      then some Error.invalid
      else if not (validate_prefixes [] r.protect_prefixes)
          || not (validate_prefixes [] (elements r.exclude_prefixes))
      then some Error.invalid
      else if refused_policy r.queue_policy
      then some Error.invalid
      else if not (is_nil (validate_limits r.limits profile))
      then some Error.invalid
      else if refused_theme r.theme
      then some Error.invalid
      else if not (lib.logo_ok r.theme.logo_image)
      then some Error.invalid
      else none

  -- The loop over rooms, with the identifiers seen and the rooms before, in order.
  unfoldable pub validate_rooms :
      Text → List Text → List Text → List Room → List Room → Option Error
  validate_rooms profile ids public_ids before [] = none
  validate_rooms profile ids public_ids before (r ∷ rs) =
      let rest =
        validate_rooms profile (r.id ∷ ids) (r.public_id ∷ public_ids) (before ++ (r ∷ [])) rs in
      if not (is_nil (validate_room r profile))
        || any (text_eq r.id) ids
        || any (text_eq r.public_id) public_ids
      then some Error.invalid
      else if not r.active
      then rest
      else if conflicts r before
      then some Error.conflict
      else rest

  unfoldable pub validate : Config → Option Error
  validate c =
      if not (elim c.schema_version [ pos n ↦ n == 1 | _ ↦ false ])
        || ltb_ℤ c.revision (pos 0)
        || leb_ℤ (pos 9007199254740990) c.revision
        || not (region_matches c.region_id)
        || is_nil c.rooms
        || ltb 100 (length (elements c.rooms))
        || (not (text_eq c.profile standard) && not (text_eq c.profile high_scale))
      then some Error.invalid
      else validate_rooms c.profile [] [] [] (elements c.rooms)
