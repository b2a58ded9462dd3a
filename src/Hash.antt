-- ===== src/Hash.antt =====
-- src/hash.c: the tables of clients and of channels by name. A client or channel is the number
-- of its object, and its name is read from the object, so that a chain sees a change of name.
pub mod Folding
pub mod Chain
pub mod Lookup
pub mod Names
pub mod Masked
mod Tests
use igniteircd.Prelude.{
  ℕ, zero, suc, ◌+◌, ◌-◌, ◌*◌, ◌%◌, ◌^◌, Bool, true, false, not, ◌&&◌, ◌||◌, Option, none, some,
  List, [], ◌∷◌, Text, take, ◌==◌, ltb, if◌then◌else◌,
}
use igniteircd.Chars.Tables.{to_lower}
use igniteircd.Mask.Compare.{same_name}

abbrev pub u_max : ℕ
u_max = 65536

abbrev pub ch_max : ℕ
ch_max = 16384

abbrev pub hostlen : ℕ
hostlen = 63

abbrev u32_mod : ℕ
u32_mod = 2 ^ 32

-- `h = (h << 4) - (h + (unsigned char)ToLower(*name++))`, on unsigned int.
pub hash_step : ℕ → ℕ → ℕ
hash_step h c = ((h * 16) % u32_mod + u32_mod - (h + to_lower c) % u32_mod) % u32_mod

pub hash_chars : ℕ → Text → ℕ
hash_chars h [] = h
hash_chars h (c ∷ name) = hash_chars (hash_step h c) name

-- `h & (U_MAX - 1)` is the remainder, as U_MAX is a power of 2.
unfoldable pub hash_nick_name : Text → ℕ
unfolding hash_chars hash_step to_lower
hash_nick_name name = hash_chars 0 name % u_max

-- `while (*name && --i)` with i = 30.
pub hash_bounded : ℕ → ℕ → Text → ℕ
hash_bounded i h [] = h
hash_bounded zero h (c ∷ name) = h
hash_bounded (suc i) h (c ∷ name) = hash_bounded i (hash_step h c) name

unfoldable pub hash_channel_name : Text → ℕ
unfolding hash_bounded hash_step to_lower
hash_channel_name name = hash_bounded 29 0 name % ch_max

-- `list` is the chain by `hnext` or `hnextch`.
pub record HashEntry : Type 0 where
  pub list : List ℕ
  pub links : ℕ
  pub hits : ℕ

abbrev pub Table : Type 0
Table = ℕ → HashEntry

-- The names in the objects, and which objects are servers or this server itself.
pub record Objects : Type 0 where
  pub name_of : ℕ → Text
  pub is_server_or_me : ℕ → Bool

-- clear_client_hash_table, clear_channel_hash_table
pub clear_table : Table
clear_table h = record { list = []; links = 0; hits = 0 }

pub add_link : ℕ → ℕ → Table → Table
add_link hashv p t h =
    if h == hashv
    then record { list = p ∷ (t h).list; links = (t h).links + 1; hits = (t h).hits + 1 }
    else t h

pub add_to_client_hash_table : Text → ℕ → Table → Table
add_to_client_hash_table name cptr t = add_link (hash_nick_name name) cptr t

pub add_to_channel_hash_table : Text → ℕ → Table → Table
add_to_channel_hash_table name chptr t = add_link (hash_channel_name name) chptr t

-- The walk of the deletions: the chain without its first link to the object, if there is one.
pub unlink : ℕ → List ℕ → Option (List ℕ)
unlink p [] = none
unlink p (q ∷ chain) =
    let rest = unlink p chain in
    if q == p then some chain else elim rest [ none ↦ none | some chain' ↦ some (q ∷ chain') ]

pub del_link : ℕ → ℕ → Table → Table
del_link hashv p t h = elim (unlink p (t hashv).list) [
  | none ↦ t h
  | some chain ↦
      if h == hashv
      then record {
        list = chain;
        links = if ltb 0 (t h).links then (t h).links - 1 else (t h).links;
        hits = (t h).hits;
      }
      else t h
]

pub del_from_client_hash_table : Text → ℕ → Table → Table
del_from_client_hash_table name cptr t = del_link (hash_nick_name name) cptr t

pub del_from_channel_hash_table : Text → ℕ → Table → Table
del_from_channel_hash_table name chptr t = del_link (hash_channel_name name) chptr t

-- The first link of a chain that passes the test and has the name.
pub find_link : Objects → (ℕ → Bool) → Text → List ℕ → Option ℕ
find_link o test name [] = none
find_link o test name (p ∷ chain) =
    if test p && same_name name (o.name_of p) then some p else find_link o test name chain

-- A miss gives the caller's default back.
pub or_default : Option ℕ → Option ℕ → Option ℕ
or_default none d = d
or_default (some p) d = some p

abbrev pub every : ℕ → Bool
every p = true

pub hash_find_client : Objects → Table → Text → Option ℕ → Option ℕ
hash_find_client o t name cptr =
    or_default (find_link o every name (t (hash_nick_name name)).list) cptr

pub hash_find_channel : Objects → Table → Text → Option ℕ → Option ℕ
hash_find_channel o t name chptr =
    or_default (find_link o every name (t (hash_channel_name name)).list) chptr

-- From the next dot on: each text from a dot, with a star in place of the character before it.
-- That character stands behind the dot before, so no write touches a text that is read later.
pub masked_lookups : Objects → Table → Text → Option ℕ
masked_lookups o t [] = none
masked_lookups o t (c ∷ p) =
    let later = masked_lookups o t p in
    if c == b'.' then or_default (hash_find_client o t (b'*' ∷ c ∷ p) none) later else later

starts_masked : Text → Bool
starts_masked [] = false
starts_masked (c ∷ _) = c == b'*' || c == b'.'

pub hash_find_masked_server : Objects → Table → Text → Option ℕ
unfolding starts_masked
hash_find_masked_server o t name =
    if starts_masked name then none else masked_lookups o t (take hostlen name)

pub hash_find_server : Objects → Table → Text → Option ℕ
hash_find_server o t name =
    or_default (find_link o o.is_server_or_me name (t (hash_nick_name name)).list)
      (hash_find_masked_server o t name)
