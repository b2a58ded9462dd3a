-- ===== src/Hash/Names.antt =====
-- The tables of src/hash.c as maps from names, up to case, to clients and to channels.
use igniteircd.Prelude.{
  arith, ==-refl, ℕ, ◌≡◌, refl, ◌↔◌, true, Option, none, some, Text, All, if◌then◌else◌,
}
use igniteircd.Chars.Tables.{IsChar}
use igniteircd.Mask.Compare.{same_name}
use igniteircd.Hash.{
  add_link, clear_table, Objects, Table, find_link, every, or_default, hash_nick_name,
  hash_channel_name, hash_find_client, hash_find_channel, add_to_client_hash_table,
  add_to_channel_hash_table, del_from_client_hash_table, del_from_channel_hash_table,
}
use igniteircd.Hash.Folding.{hash-same_name}
use igniteircd.Hash.Lookup.{
  IsFoldHash, IsValid, found_iff, found-add_link, add_link-IsValid, found-del_link,
  del_link-IsValid,
}
use igniteircd.Hash.Chain.{holds, IsNamed}

client_fold : IsFoldHash hash_nick_name
client_fold s t hs ht e = (hash-same_name s t hs ht e).0

channel_fold : IsFoldHash hash_channel_name
channel_fold s t hs ht e = (hash-same_name s t hs ht e).1

-- The object lies in the table, in the chain of its name.
abbrev pub IsIndexed : (Text → ℕ) → Objects → Table → ℕ → Type 0
IsIndexed hash o t p = holds p (t (hash (o.name_of p))).list ≡ true

or_default-none : (d : Option ℕ) → or_default d none ≡ d
unfolding or_default
or_default-none none = refl
or_default-none (some p) = refl

-- In a valid table of clients a search finds exactly the client of that name up to case, and
-- likewise in a valid table of channels. All names hold bytes and no NUL.
pub hash_find_iff :
    (o : Objects) (clients channels : Table) (name : Text) (p : ℕ)
    → IsNamed o
    → All IsChar name
    → IsValid hash_nick_name o clients
    → IsValid hash_channel_name o channels
    → ((hash_find_client o clients name none ≡ some p)
        ↔ (IsIndexed hash_nick_name o clients p × (same_name name (o.name_of p) ≡ true)))
      × ((hash_find_channel o channels name none ≡ some p)
          ↔ (IsIndexed hash_channel_name o channels p × (same_name name (o.name_of p) ≡ true)))
unfolding hash_find_client hash_find_channel
hash_find_iff o clients channels name p named c v w =
    rw
      (
        or_default-none (find_link o every name (clients (hash_nick_name name)).list),
        or_default-none (find_link o every name (channels (hash_channel_name name)).list),
      )
      (
        found_iff hash_nick_name client_fold o named clients name p v c,
        found_iff hash_channel_name channel_fold o named channels name p w c,
      )

-- After a client is added under its name, a search by that name in any case finds it, and a
-- search by another name finds what it found. All names hold bytes and no NUL.
pub hash_find_client-add :
    (o : Objects) (t : Table) (name : Text) (p : ℕ)
    → IsNamed o
    → All IsChar name
    → hash_find_client o (add_to_client_hash_table (o.name_of p) p t) name none
      ≡ (if same_name name (o.name_of p) then some p else hash_find_client o t name none)
unfolding hash_find_client add_to_client_hash_table
hash_find_client-add o t name p named c =
    simp or_default-none (found-add_link hash_nick_name client_fold o named t name p c)

-- A table of clients stays valid when a client is added whose name no client of the table has
-- in any case. All names hold bytes and no NUL.
pub add_to_client_hash_table-IsValid :
    (o : Objects) (t : Table) (p : ℕ)
    → IsNamed o
    → IsValid hash_nick_name o t
    → hash_find_client o t (o.name_of p) none ≡ none
    → IsValid hash_nick_name o (add_to_client_hash_table (o.name_of p) p t)
unfolding hash_find_client add_to_client_hash_table
add_to_client_hash_table-IsValid o t p named v a =
    add_link-IsValid hash_nick_name client_fold o named t p v (simp or_default-none at a)

-- After a client of a valid table is deleted under its name, a search by that name in any case
-- finds nothing, a search by another name finds what it found, and the table is valid. All
-- names hold bytes and no NUL.
pub hash_find_client-del :
    (o : Objects) (t : Table) (name : Text) (p : ℕ)
    → IsNamed o
    → All IsChar name
    → IsValid hash_nick_name o t
    → IsIndexed hash_nick_name o t p
    → (hash_find_client o (del_from_client_hash_table (o.name_of p) p t) name none
        ≡ (if same_name name (o.name_of p) then none else hash_find_client o t name none))
      × IsValid hash_nick_name o (del_from_client_hash_table (o.name_of p) p t)
unfolding hash_find_client del_from_client_hash_table
hash_find_client-del o t name p named c v h = simp or_default-none (
  found-del_link hash_nick_name client_fold o named t name p v h c,
  del_link-IsValid hash_nick_name client_fold o named t p v h,
)

-- After a channel is added under its name, a search by that name in any case finds it, and a
-- search by another name finds what it found. All names hold bytes and no NUL.
pub hash_find_channel-add :
    (o : Objects) (t : Table) (name : Text) (p : ℕ)
    → IsNamed o
    → All IsChar name
    → hash_find_channel o (add_to_channel_hash_table (o.name_of p) p t) name none
      ≡ (if same_name name (o.name_of p) then some p else hash_find_channel o t name none)
unfolding hash_find_channel add_to_channel_hash_table
hash_find_channel-add o t name p named c =
    simp or_default-none (found-add_link hash_channel_name channel_fold o named t name p c)

-- A table of channels stays valid when a channel is added whose name no channel of the table has
-- in any case. All names hold bytes and no NUL.
pub add_to_channel_hash_table-IsValid :
    (o : Objects) (t : Table) (p : ℕ)
    → IsNamed o
    → IsValid hash_channel_name o t
    → hash_find_channel o t (o.name_of p) none ≡ none
    → IsValid hash_channel_name o (add_to_channel_hash_table (o.name_of p) p t)
unfolding hash_find_channel add_to_channel_hash_table
add_to_channel_hash_table-IsValid o t p named v a =
    add_link-IsValid hash_channel_name channel_fold o named t p v (simp or_default-none at a)

-- After a channel of a valid table is deleted under its name, a search by that name in any case
-- finds nothing, a search by another name finds what it found, and the table is valid. All
-- names hold bytes and no NUL.
pub hash_find_channel-del :
    (o : Objects) (t : Table) (name : Text) (p : ℕ)
    → IsNamed o
    → All IsChar name
    → IsValid hash_channel_name o t
    → IsIndexed hash_channel_name o t p
    → (hash_find_channel o (del_from_channel_hash_table (o.name_of p) p t) name none
        ≡ (if same_name name (o.name_of p) then none else hash_find_channel o t name none))
      × IsValid hash_channel_name o (del_from_channel_hash_table (o.name_of p) p t)
unfolding hash_find_channel del_from_channel_hash_table
hash_find_channel-del o t name p named c v h = simp or_default-none (
  found-del_link hash_channel_name channel_fold o named t name p v h c,
  del_link-IsValid hash_channel_name channel_fold o named t p v h,
)

pub hash_find_channel-clear_table :
    (o : Objects) (name : Text) → hash_find_channel o clear_table name none ≡ none
unfolding hash_find_channel clear_table find_link or_default
hash_find_channel-clear_table o name = refl

pub add_to_channel_hash_table-IsIndexed :
    (o : Objects) (t : Table) (p : ℕ)
    → IsIndexed hash_channel_name o (add_to_channel_hash_table (o.name_of p) p t) p
unfolding add_to_channel_hash_table add_link
add_to_channel_hash_table-IsIndexed o t p =
    rw (==-refl (hash_channel_name (o.name_of p))) (ground arith)
