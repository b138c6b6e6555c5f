-- ===== src/Examples/Routes.antt =====
-- internal/control/config.go: a configuration with two rooms of one hostname.
use waiting_room.Base.{
  ◌≤◌, ◌≡◌, refl, true, false, [], ◌∷◌, none, some, Text, codes, text_eq, leb, all, any, is_ok,
  count,
}
use waiting_room.Base.Int.{pos}
use waiting_room.Control.Paths.{
  has_prefix, contains, trim_slash, split, valid_hostname, valid_path, prefix_matches,
}
use waiting_room.Control.Paths
use waiting_room.Control.Config.{
  Room, Config, Url, Library, id_matches, public_id_matches, region_matches, color_matches,
  validate_limits, validate_prefixes, plain, valid_origin, validate_room, prefixes_conflict,
  conflicts, validate_rooms, validate,
}
use waiting_room.Control.Runtime.{
  Delivery, validate_runtime, runtimes_ok, validate_delivery, find_room, find, initial_runtime,
  queue_config,
}
use waiting_room.Control.Runtime.Queues.{find-accepted}
use waiting_room.Queue.Model.{new}
use waiting_room.Control.Routing.{Decision, Reason, serves, protections, match_url}
use waiting_room.Control.Routing.Uniqueness.{takes, IsRoutable, protect_unique, match_url_protects}

abbrev url : Text → Text → Url
url host path = record {
  scheme = codes "https";
  user = false;
  host = host;
  hostname = host;
  port = [];
  path = path;
  raw_path = [];
  raw_query = [];
  force_query = false;
  fragment = [];
  opaque = [];
}

-- A library that parses every string as the origin's address.
abbrev library : Library
library = record {
  runes = λ t. some t;
  is_control = λ c. leb c 31;
  trim_space = λ t. t;
  parse_url = λ t. some (url (codes "origin.lab") t);
  atoi = λ t. none;
  logo_ok = λ t. true;
}

abbrev room : Text → Text → Text → Room
room id public_id prefix = record {
  id = id;
  public_id = public_id;
  name = id;
  hostname = codes "shop.lab";
  origin = codes "/";
  health_url = codes "/health";
  protect_prefixes = prefix ∷ [];
  exclude_prefixes = some (codes "/static" ∷ []);
  queue_policy = record {
    kind = codes "fifo";
    ticket_idle_ttl_seconds = pos 60;
    ticket_max_ttl_seconds = pos 600;
    ready_ttl_seconds = pos 30;
  };
  limits = record {
    max_active_admission_leases = pos 10;
    admissions_per_minute = pos 10;
    admission_ttl_seconds = pos 60;
  };
  theme = record {
    template_id = codes "calm";
    title = codes "Hello";
    message = codes "Wait";
    primary_color = codes "#00ffaa";
    locale = codes "en";
    show_estimated_wait = true;
    logo_image = [];
  };
  active = true;
}

abbrev sale : Room
sale = room (codes "sale") (codes "aaaaaaaaaaaaaaaaaaaa") (codes "/sale/")

abbrev cart : Room
cart = room (codes "cart") (codes "bbbbbbbbbbbbbbbbbbbb") (codes "/cart")

abbrev config : Config
config = record {
  schema_version = pos 1;
  revision = pos 3;
  profile = codes "standard-10k";
  region_id = codes "lab";
  rooms = some (sale ∷ cart ∷ []);
}

valid_config : validate library config ≡ none
unfolding has_prefix contains trim_slash split valid_hostname valid_path prefix_matches
    Paths.reserved id_matches public_id_matches region_matches color_matches validate_limits
    validate_prefixes plain valid_origin validate_room prefixes_conflict conflicts validate_rooms
    validate text_eq all any
valid_config = refl

abbrev path : Text
path = codes "/cart/42"

protect_unique_example : count (takes protections (codes "shop.lab") path) (sale ∷ cart ∷ []) ≤ 1
protect_unique_example = protect_unique library config (codes "shop.lab") path valid_config

routable : IsRoutable (codes "shop.lab") (url (codes "shop.lab") path)
unfolding has_prefix contains trim_slash split valid_hostname valid_path prefix_matches
    Paths.reserved text_eq all any
routable = record {
  host_valid = refl;
  path_valid = refl;
  plain_path = refl;
  plain_url = refl;
  unreserved = refl;
}

match_url_protects_example :
    match_url config (codes "shop.lab") (some (url (codes "shop.lab") path)) ≡ record {
      decision = Decision.protected;
      room_id = codes "cart";
      reason = Reason.protect_prefix;
    }
unfolding serves has_prefix trim_slash prefix_matches text_eq any count
match_url_protects_example =
    match_url_protects library config (codes "shop.lab") (url (codes "shop.lab") path) (sale ∷ [])
      cart [] valid_config refl routable refl refl

abbrev delivery : Delivery
delivery = record {
  config = config;
  runtimes =
      record { room_id = codes "sale"; runtime = initial_runtime sale }
      ∷ record { room_id = codes "cart"; runtime = initial_runtime cart }
      ∷ [];
}

valid_delivery : validate_delivery library delivery ≡ none
unfolding has_prefix contains trim_slash split valid_hostname valid_path prefix_matches
    Paths.reserved id_matches public_id_matches region_matches color_matches validate_limits
    validate_prefixes plain valid_origin validate_room prefixes_conflict conflicts validate_rooms
    validate text_eq all any validate_runtime runtimes_ok validate_delivery initial_runtime
valid_delivery = refl

found_cart : find delivery (codes "cart") ≡ some (cart, initial_runtime cart)
unfolding find_room text_eq
found_cart = refl

find-accepted_example :
    (cart.id ≡ codes "cart")
    × (is_ok (new (queue_config (initial_runtime cart) config.profile cart)) ≡ true)
    × (cart.active ≡ false → (initial_runtime cart).mode ≡ codes "OFF")
find-accepted_example =
    find-accepted library delivery (codes "cart") cart (initial_runtime cart) valid_delivery
      found_cart
