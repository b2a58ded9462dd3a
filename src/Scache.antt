-- ===== src/Scache.antt =====
-- src/scache.c: the server names, each kept once. An entry is its address, its text a function of
-- the address; `scache_hash` is the chain of each index.
pub mod Laws
mod Tests
use igniteircd.Prelude.{
  ℕ, zero, suc, ◌+◌, ◌%◌, Bool, true, false, Option, none, some, List, [], ◌∷◌, Text, length, take,
  ◌==◌, if◌then◌else◌,
}
use igniteircd.Chars.Tables.{to_lower}
use igniteircd.Mask.Compare.{same_name}
use igniteircd.Channel.{set}

abbrev pub scache_hash_size : ℕ
scache_hash_size = 257

abbrev pub hostlen : ℕ
hostlen = 63

pub record Cache : Type 0 where
  pub scache_hash : ℕ → List ℕ
  pub name : ℕ → Text

pub clear_scache_hash_table : Cache → Cache
clear_scache_hash_table c = record c { scache_hash = λ i. [] }

pub hash_loop : ℕ → Text → ℕ
hash_loop hash_value [] = hash_value
hash_loop hash_value (c ∷ string) = hash_loop (hash_value + to_lower c) string

pub hash : Text → ℕ
hash string = hash_loop 0 string % scache_hash_size

-- The loop along a chain.
pub find : Cache → Text → List ℕ → Option ℕ
find c name [] = none
find c name (ptr ∷ chain) = if same_name (c.name ptr) name then some ptr else find c name chain

-- `fresh` is the address that MyMalloc returns.
pub add : Cache → Text → ℕ → Cache
add c name fresh = record {
  scache_hash = set c.scache_hash (hash name) (fresh ∷ c.scache_hash (hash name));
  name = set c.name fresh (take hostlen name);
}

pub found_or_added : Cache → Text → ℕ → Option ℕ → Cache × ℕ
found_or_added c name fresh (some ptr) = (c, ptr)
found_or_added c name fresh none = (add c name fresh, fresh)

pub find_or_add : Cache → Text → ℕ → Cache × ℕ
find_or_add c name fresh = found_or_added c name fresh (find c name (c.scache_hash (hash name)))
