-- ===== src/Class.antt =====
-- src/class.c: the connection classes, and what a client's configuration items say of it.
-- ClassList never is empty after initclass: `first` is its first element, class 0.
pub mod Find
mod Tests
use igniteircd.Prelude.{
  ℕ, ℤ, pos, negsuc, Bool, true, false, not, ◌&&◌, ◌||◌, Option, none, some, List, [], ◌∷◌,
  if◌then◌else◌, ◌==ℤ◌, ltℤ,
}

pub record Class : Type 0 where
  pub type : ℤ
  pub con_freq : ℤ
  pub ping_freq : ℤ
  pub max_links : ℤ
  pub max_sendq : ℤ
  pub links : ℤ

pub record ClassList : Type 0 where
  pub first : Class
  pub rest : List Class

-- A configuration item: whether `status` has CONF_CLIENT, CONF_CONNECT_SERVER or
-- CONF_NOCONNECT_SERVER, and `c_class`, which may be NULL.
pub record ConfItem : Type 0 where
  pub connects : Bool
  pub c_class : Option Class

abbrev pub bad_conf_class : ℤ
bad_conf_class = negsuc 0

abbrev pub bad_ping : ℤ
bad_ping = negsuc 1

abbrev pub bad_client_class : ℤ
bad_client_class = negsuc 2

abbrev pub ping_frequency : ℤ
ping_frequency = pos 120

abbrev pub connect_frequency : ℤ
connect_frequency = pos 600

abbrev pub maximum_links : ℤ
maximum_links = pos 1

abbrev pub max_sendq_length : ℤ
max_sendq_length = pos 500000

abbrev class_field : (Class → ℤ) → ℤ → Option Class → ℤ
class_field f bad none = bad
class_field f bad (some c) = f c

pub get_conf_class : Option ConfItem → ℤ
get_conf_class none = bad_conf_class
get_conf_class (some conf) = class_field (λ c. c.type) bad_conf_class conf.c_class

pub get_conf_ping : Option ConfItem → ℤ
get_conf_ping none = bad_ping
get_conf_ping (some conf) = class_field (λ c. c.ping_freq) bad_ping conf.c_class

-- The loop of get_client_class: a link without an item or a class is passed over.
pub highest_class : ℤ → List (Option ConfItem) → ℤ
highest_class retc [] = retc
highest_class retc (none ∷ confs) = highest_class retc confs
highest_class retc (some conf ∷ confs) =
    highest_class
      (elim conf.c_class [ none ↦ retc | some cl ↦ if ltℤ retc cl.type then cl.type else retc ])
      confs

-- `is_me` tells whether the client is this server. NULL for the client is left out.
pub get_client_class : Bool → List (Option ConfItem) → ℤ
get_client_class is_me confs =
    if is_me then bad_client_class else highest_class bad_client_class confs

-- The loop of get_client_ping; it reads no NULL item.
pub least_ping : ℤ → List ConfItem → ℤ
least_ping ping [] = ping
least_ping ping (conf ∷ confs) =
    let ping2 = get_conf_ping (some conf) in
    least_ping
      (if conf.connects && not (ping2 ==ℤ bad_ping) && (ltℤ ping2 ping || (ping ==ℤ pos 0))
        then ping2
        else ping)
      confs

abbrev or_frequency : ℤ → ℤ
or_frequency ping = if ltℤ (pos 0) ping then ping else ping_frequency

pub get_client_ping : List ConfItem → ℤ
get_client_ping [] = or_frequency ping_frequency
get_client_ping (conf ∷ confs) = or_frequency (least_ping (pos 0) (conf ∷ confs))

pub get_con_freq : Option Class → ℤ
get_con_freq none = connect_frequency
get_con_freq (some cl) = cl.con_freq

pub first_of_type : ℤ → List Class → Option Class
first_of_type n [] = none
first_of_type n (cl ∷ rest) = if cl.type ==ℤ n then some cl else first_of_type n rest

pub or_first : Class → Option Class → Class
or_first first none = first
or_first first (some cl) = cl

pub find_class : ClassList → ℤ → Class
find_class l n = or_first l.first (first_of_type n (l.first ∷ l.rest))

-- The values that a Y line gives.
pub record Settings : Type 0 where
  pub class : ℤ
  pub ping : ℤ
  pub confreq : ℤ
  pub maxli : ℤ
  pub sendq : ℤ

-- The writes of add_class; `links` is reset only in a new class.
pub configure : Settings → ℤ → Class
configure s links = record {
  type = s.class;
  con_freq = s.confreq;
  ping_freq = s.ping;
  max_links = s.maxli;
  max_sendq = if ltℤ (pos 0) s.sendq then s.sendq else max_sendq_length;
  links = links;
}

pub update_first : Settings → List Class → Option (List Class)
update_first s [] = none
update_first s (cl ∷ rest) =
    let later = update_first s rest in
    if cl.type ==ℤ s.class
    then some (configure s cl.links ∷ rest)
    else elim later [ none ↦ none | some rest' ↦ some (cl ∷ rest') ]

-- The first class stands for one that is not found: class 0 is written there, any other class
-- goes in behind it.
pub add_behind : Settings → ClassList → ClassList
add_behind s l =
    if s.class ==ℤ pos 0
    then record l { first = configure s l.first.links }
    else record l { rest = configure s (pos 0) ∷ l.rest }

pub add_or_update : Settings → ClassList → Option (List Class) → ClassList
add_or_update s l none = add_behind s l
add_or_update s l (some rest) = record l { rest = rest }

pub add_class : Settings → ClassList → ClassList
add_class s l =
    if l.first.type ==ℤ s.class then add_behind s l else add_or_update s l (update_first s l.rest)

-- The loop of check_class behind the first class, which is never taken out of the list.
pub check_rest : List Class → List Class
check_rest [] = []
check_rest (cl ∷ rest) =
    let left = check_rest rest in if ltℤ cl.max_links (pos 0) then left else cl ∷ left

pub check_class : ClassList → ClassList
check_class l = record l { rest = check_rest l.rest }

pub initclass : ClassList
initclass = record {
  first = record {
    type = pos 0;
    con_freq = connect_frequency;
    ping_freq = ping_frequency;
    max_links = maximum_links;
    max_sendq = max_sendq_length;
    links = pos 0;
  };
  rest = [];
}

-- The loop of get_sendq: `retc` stays BAD_CLIENT_CLASS.
pub last_sendq : ℤ → List (Option ConfItem) → ℤ
last_sendq sendq [] = sendq
last_sendq sendq (none ∷ confs) = last_sendq sendq confs
last_sendq sendq (some conf ∷ confs) =
    last_sendq
      (elim conf.c_class [
        | none ↦ sendq
        | some cl ↦ if ltℤ bad_client_class cl.type then cl.max_sendq else sendq
      ])
      confs

pub get_sendq : Bool → List (Option ConfItem) → ℤ
get_sendq is_me confs = if is_me then max_sendq_length else last_sendq max_sendq_length confs
