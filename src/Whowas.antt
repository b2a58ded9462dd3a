-- ===== src/Whowas.antt =====
-- src/whowas.c: the ring of former nicknames, with its hash table and the list that each online
-- client has of its entries. An entry is its index in WHOWAS; a list is the entries along `next`
-- or `cnext`, which the backward pointers follow.
pub mod Index
pub mod Ring
pub mod History
mod Tests
use igniteircd.Prelude.{
  ℕ, zero, suc, ◌+◌, ◌-◌, ◌%◌, Bool, true, false, not, ◌&&◌, ◌||◌, Option, none, some, List, [],
  ◌∷◌, Text, take, ltb, ◌==◌, if◌then◌else◌,
}
use igniteircd.Mask.Compare.{same_name}
use igniteircd.Hash.{hash_chars}
use igniteircd.Channel.{set}

abbrev pub ww_max : ℕ
ww_max = 65536

abbrev pub nicknamehistorylength : ℕ
nicknamehistorylength = 1000

abbrev pub nicklen : ℕ
nicklen = 30

-- The loop is the one of hash_nick_name in src/hash.c.
pub hash_whowas_name : Text → ℕ
hash_whowas_name name = hash_chars 0 name % ww_max

-- What is copied of a client.
pub record Client : Type 0 where
  pub name : Text
  pub username : Text
  pub host : Text
  pub info : Text
  pub server : Text

-- A `hashv` of -1 is `none`, as is NULL in `online`.
pub record Entry : Type 0 where
  pub hashv : Option ℕ
  pub name : Text
  pub username : Text
  pub hostname : Text
  pub servername : Text
  pub realname : Text
  pub logoff : ℕ
  pub online : Option ℕ

-- `of_client` is `->whowas` of each client, `now` is CurrentTime.
pub record State : Type 0 where
  pub entries : ℕ → Entry
  pub hash : ℕ → List ℕ
  pub of_client : ℕ → List ℕ
  pub next : ℕ
  pub now : ℕ

pub initwhowas : ℕ → State
initwhowas now = record {
  entries = λ i. record {
    hashv = none;
    name = [];
    username = [];
    hostname = [];
    servername = [];
    realname = [];
    logoff = 0;
    online = none;
  };
  hash = λ h. [];
  of_client = λ c. [];
  next = 0;
  now = now;
}

-- add_whowas_to_clist, add_whowas_to_list
pub add_whowas : ℕ → List ℕ → List ℕ
add_whowas who bucket = who ∷ bucket

-- del_whowas_from_clist, del_whowas_from_list
pub del_whowas : ℕ → List ℕ → List ℕ
del_whowas who [] = []
del_whowas who (w ∷ bucket) =
    let left = del_whowas who bucket in if w == who then bucket else w ∷ left

-- Taking an entry off the list that its key names, and putting it there.
pub take_off : Option ℕ → ℕ → (ℕ → List ℕ) → ℕ → List ℕ
take_off none who lists = lists
take_off (some k) who lists = set lists k (del_whowas who (lists k))

pub put_on : Option ℕ → ℕ → (ℕ → List ℕ) → ℕ → List ℕ
put_on none who lists = lists
put_on (some k) who lists = set lists k (add_whowas who (lists k))

-- `if (who->hashv != -1)`
pub unlink : Option ℕ → ℕ → State → State
unlink none who s = s
unlink (some h) who s = record s {
  of_client = take_off (s.entries who).online who s.of_client;
  hash = take_off (some h) who s.hash;
}

pub new_entry : ℕ → Client → Option ℕ → Entry
new_entry now cptr online = record {
  hashv = some (hash_whowas_name cptr.name);
  name = take nicklen cptr.name;
  username = cptr.username;
  hostname = cptr.host;
  servername = cptr.server;
  realname = cptr.info;
  logoff = now;
  online = online;
}

-- Behind the `if`, into a place that is on no list.
pub fill : ℕ → Client → Option ℕ → State → State
fill who cptr online s = record s {
  entries = set s.entries who (new_entry s.now cptr online);
  of_client = put_on online who s.of_client;
  hash = put_on (some (hash_whowas_name cptr.name)) who s.hash;
  next = if s.next + 1 == nicknamehistorylength then 0 else s.next + 1;
}

-- `online` names the client if the flag is set.
pub add_history : Client → Option ℕ → State → State
add_history cptr online s = fill s.next cptr online (unlink (s.entries s.next).hashv s.next s)

pub forget : ℕ → ℕ → State → State
forget cptr temp s = record s {
  entries = set s.entries temp (record (s.entries temp) { online = none });
  of_client = set s.of_client cptr (del_whowas temp (s.of_client cptr));
}

-- The loop, with `next` read before the entry is taken off.
pub off_each : ℕ → List ℕ → State → State
off_each cptr [] s = s
off_each cptr (temp ∷ next) s = off_each cptr next (forget cptr temp s)

pub off_history : ℕ → State → State
off_history cptr s = off_each cptr (s.of_client cptr) s

-- The walk along a chain, with `timelimit` as a time.
pub find_history : (ℕ → Entry) → Text → ℕ → List ℕ → Option ℕ
find_history entries nick timelimit [] = none
find_history entries nick timelimit (temp ∷ next) =
    let later = find_history entries nick timelimit next in
    if not (same_name nick (entries temp).name) || ltb (entries temp).logoff timelimit
    then later
    else (entries temp).online

-- A `timelimit` over CurrentTime gives a time that is before all others, as 0 is.
pub get_history : Text → ℕ → State → Option ℕ
get_history nick timelimit s =
    find_history s.entries nick (s.now - timelimit) (s.hash (hash_whowas_name nick))
