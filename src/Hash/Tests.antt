-- ===== src/Hash/Tests.antt =====
-- The tables of src/hash.c on two clients and a server.
use igniteircd.Prelude.{◌≡◌, refl, ◌↔◌, true, false, none, some, codes, arith, if◌then◌else◌, ◌==◌}
use igniteircd.Chars.Tables.{to_upper}
use igniteircd.Mask.Compare.{same_name}
use igniteircd.Hash.{
  Objects, Table, clear_table, hash_nick_name, hash_channel_name, hash_find_client,
  hash_find_channel, hash_find_server, add_to_client_hash_table, find_link, or_default,
  hash_find_masked_server, add_link, masked_lookups,
}
use igniteircd.Hash.Chain.{IsNamed}
use igniteircd.Hash.Lookup.{IsValid, clear_table-IsValid}
use igniteircd.Hash.Names.{IsIndexed, hash_find_iff, add_to_client_hash_table-IsValid}

-- 1 is the client Nick, 2 the server hub.irc.net, any other number the server *.org.
abbrev objects : Objects
objects = record {
  name_of =
      λ p. if p == 1 then codes "Nick" else if p == 2 then codes "hub.irc.net" else codes "*.org";
  is_server_or_me = λ p. if p == 1 then false else true;
}

named : IsNamed objects
named p = ground arith

abbrev one_client : Table
one_client = add_to_client_hash_table (codes "Nick") 1 clear_table

one_client-IsValid : IsValid hash_nick_name objects one_client
unfolding hash_find_client clear_table find_link or_default
one_client-IsValid =
    add_to_client_hash_table-IsValid objects clear_table 1 named
      (clear_table-IsValid hash_nick_name objects) refl

one_client_holds : IsIndexed hash_nick_name objects one_client 1
unfolding add_to_client_hash_table add_link hash_nick_name
one_client_holds = refl

empty_channels-IsValid : IsValid hash_channel_name objects clear_table
empty_channels-IsValid = clear_table-IsValid hash_channel_name objects

hash_find_iff_example :
    ((hash_find_client objects one_client (codes "nick") none ≡ some 1) ↔ (
      IsIndexed hash_nick_name objects one_client 1
      × (same_name (codes "nick") (codes "Nick") ≡ true)))
    × ((hash_find_channel objects clear_table (codes "nick") none ≡ some 1) ↔ (
        IsIndexed hash_channel_name objects clear_table 1
        × (same_name (codes "nick") (codes "Nick") ≡ true)))
hash_find_iff_example =
    hash_find_iff objects one_client clear_table (codes "nick") 1 named (omega arith)
      one_client-IsValid empty_channels-IsValid

nobody : hash_find_client objects clear_table (objects.name_of 1) none ≡ none
unfolding hash_find_client clear_table find_link or_default
nobody = refl

abbrev with_servers : Table
with_servers =
    add_to_client_hash_table (codes "*.org") 3
      (add_to_client_hash_table (codes "hub.irc.net") 2 one_client)

masked_hit : hash_find_server objects with_servers (codes "irc.example.org") ≡ some 3
unfolding hash_find_server hash_find_masked_server masked_lookups hash_find_client find_link
    or_default add_to_client_hash_table add_link hash_nick_name same_name to_upper clear_table
masked_hit = refl
