-- ===== src/Channel/Members/Tests.antt =====
-- Joining, leaving and inviting on the lobby of the samples.
use igniteircd.Prelude.{
  ℕ, ◌+◌, ◌-◌, ◌==◌, refl, false, none, codes, if◌then◌else◌, ◌≡◌, true, arith,
}
use igniteircd.Mask.Compare.{same_name}
use igniteircd.Hash.{hash_channel_name, hash_find_channel, add_to_channel_hash_table, clear_table}
use igniteircd.Hash.Chain.{IsNamed}
use igniteircd.Hash.Lookup.{IsValid, clear_table-IsValid}
use igniteircd.Hash.Names.{
  add_to_channel_hash_table-IsValid, add_to_channel_hash_table-IsIndexed,
  hash_find_channel-clear_table,
}
use igniteircd.Channel.{World}
use igniteircd.Channel.Access.{channel_objects}
use igniteircd.Channel.Members.Table.{hash_find_channel-remove_user}
use igniteircd.Channel.Samples.{world, world-IsConsistent}
use igniteircd.Channel.Members.{remove_user_from_channel}
use igniteircd.Channel.Members.Links.{occurs, IsConsistent, members_of, channels_of, invited_of}
use igniteircd.Channel.Members.Leave.{
  remove_user_from_channel-IsConsistent, remove_user_from_channel-invited,
}

remove_user_from_channel-IsConsistent_example :
    IsConsistent (remove_user_from_channel world 7 3 true)
    × ((v d : ℕ)
        → occurs v (members_of (remove_user_from_channel world 7 3 true) d) ≡ (
            if d == 3
            then (if v == 7
                then occurs v (members_of world d) - 1
                else occurs v (members_of world d))
            else occurs v (members_of world d)))
    × ((v d : ℕ)
        → occurs d (channels_of (remove_user_from_channel world 7 3 true) v) ≡ (
            if d == 3
            then (if v == 7
                then occurs v (members_of world d) - 1
                else occurs v (members_of world d))
            else occurs v (members_of world d)))
    × (((remove_user_from_channel world 7 3 true).chan 3).users + 1 ≡ (world.chan 3).users)
remove_user_from_channel-IsConsistent_example =
    remove_user_from_channel-IsConsistent world 7 3 true world-IsConsistent (omega arith)

remove_user_from_channel-invited_example :
    occurs 3 (invited_of (remove_user_from_channel world 7 3 true) 8) ≡ 0
remove_user_from_channel-invited_example =
    remove_user_from_channel-invited world 7 3 true 8 world-IsConsistent (omega arith) (omega arith)

-- The lobby in the table.
abbrev listed : World
listed = record world { table = add_to_channel_hash_table (codes "#lobby") 3 clear_table }

world_names : IsNamed (channel_objects world)
world_names p = ground arith

listed-IsValid : IsValid hash_channel_name (channel_objects listed) listed.table
listed-IsValid =
    add_to_channel_hash_table-IsValid (channel_objects world) clear_table 3 world_names
      (clear_table-IsValid hash_channel_name (channel_objects world))
      (hash_find_channel-clear_table (channel_objects world) (codes "#lobby"))

hash_find_channel-remove_user_example :
    (hash_find_channel
        (channel_objects listed)
        (remove_user_from_channel listed 7 3 false).table
        (codes "#LOBBY")
        none
      ≡ (if same_name (codes "#LOBBY") (codes "#lobby")
          then none
          else hash_find_channel (channel_objects listed) listed.table (codes "#LOBBY") none))
    × IsValid hash_channel_name
        (channel_objects listed)
        (remove_user_from_channel listed 7 3 false).table
hash_find_channel-remove_user_example =
    hash_find_channel-remove_user listed 7 3 false (codes "#LOBBY") world_names (omega arith)
      listed-IsValid (add_to_channel_hash_table-IsIndexed (channel_objects world) clear_table 3)
      (omega arith) refl
