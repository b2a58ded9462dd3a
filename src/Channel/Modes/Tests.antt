-- ===== src/Channel/Modes/Tests.antt =====
-- set_channel_mode of src/channel.c on the channel of the samples.
use igniteircd.Prelude.{
  ℕ, ◌≤◌, ◌≡◌, refl, true, false, some, List, [], ◌∷◌, Text, pos, length, All, codes, arith, ◌==◌,
}
use igniteircd.Hash.{clear_table}
use igniteircd.Whowas.{initwhowas}
use igniteircd.Channel.{find_user_link}
use igniteircd.Chars.Tables.{has_class}
use igniteircd.Channel.Names.{is_space, nicklen, userlen, hostlen}
use igniteircd.Channel.Access.{user_channel_mode, member_flags}
use igniteircd.Channel.Bans.Count
use igniteircd.Channel.Members.Links.{IsConsistent}
use igniteircd.Channel.Samples.{world, world-IsConsistent}
use igniteircd.Channel.Modes.Text.{fix_key, fix_key_old, pretty_mask, contains}
use igniteircd.Channel.Modes.Text.Laws.{IsKeyChar, fix_key-stable, IsPart, pretty_mask_complete}
use igniteircd.Channel.Modes.Number.{print_int}
use igniteircd.Channel.Modes.Number.Laws.{value, starts_zero, print_int-value}
use igniteircd.Channel.Modes.Run.{Call, Run, channel, maxmodeparams, keylen}
use igniteircd.Channel.Modes.Loop.{finish, set_channel_mode}
use igniteircd.Channel.Modes.Rights.{set_channel_mode-no_rights}
use igniteircd.Channel.Modes.Replay.{replay}
use igniteircd.Channel.Modes.Announce.{set_channel_mode-announced}
use igniteircd.Channel.Modes.Bounds.{set_channel_mode-bounds}
use igniteircd.Channel.Modes.Listing.{channel_modes, channel_modes_lem}
use igniteircd.Channel.Modes.Links.{set_channel_mode-IsConsistent}

-- A change of the lobby by the client `p`.
abbrev by_client : ℕ → Call
by_client p = record {
  cptr = p;
  sptr = p;
  chptr = 3;
  clients = clear_table;
  whowas = initwhowas 1000;
  atoi = λ s. pos 5;
}

abbrev masks : List Text
masks = codes "*!*@a.org" ∷ codes "50" ∷ []

set_channel_mode-no_rights_example :
    (r : Run) × (set_channel_mode (by_client 8) world (codes "+mb-k") masks ≡ some r)
    × (r.world ≡ world)
    × (r.mbuf ≡ [])
    × (r.mbuf_new ≡ [])
unfolding user_channel_mode member_flags find_user_link
set_channel_mode-no_rights_example =
    set_channel_mode-no_rights (by_client 8) world (codes "+mb-k") masks refl refl refl refl refl

set_channel_mode-announced_example :
    (r : Run) × (set_channel_mode (by_client 7) world (codes "+m-i+bl") masks ≡ some r)
    × ((channel (by_client 7) r).mode.mode ≡ replay true r.mbuf 128)
set_channel_mode-announced_example =
    set_channel_mode-announced (by_client 7) world (codes "+m-i+bl") masks

set_channel_mode-bounds_example :
    (r : Run) × (set_channel_mode (by_client 7) world (codes "+bbmk") masks ≡ some (finish r))
    × (r.opcnt ≤ maxmodeparams)
    × (length r.mbuf ≤ 28)
    × (length r.mbuf_new ≤ 10)
set_channel_mode-bounds_example =
    set_channel_mode-bounds (by_client 7) world (codes "+bbmk") masks refl

set_channel_mode-IsConsistent_example :
    (r : Run) × (set_channel_mode (by_client 7) world (codes "-i+bk") masks ≡ some r)
    × IsConsistent r.world
    × ((d : ℕ) → Count.IsCounted (r.world.chan d))
    × ((d : ℕ) → length (r.world.chan d).mode.key ≤ keylen)
set_channel_mode-IsConsistent_example =
    set_channel_mode-IsConsistent (by_client 7) world (codes "-i+bk") masks world-IsConsistent
      (λ d. ground arith) (λ d. ground arith)

fix_key-stable_example :
    All IsKeyChar (fix_key (codes "a b:c"))
    × (fix_key (fix_key (codes "a b:c")) ≡ fix_key (codes "a b:c"))
    × (fix_key_old (fix_key (codes "a b:c")) ≡ fix_key (codes "a b:c"))
fix_key-stable_example = fix_key-stable (codes "a b:c")

nick-IsPart : IsPart nicklen (codes "nick")
unfolding is_space has_class
nick-IsPart = record {
  filled = omega arith;
  short = omega arith;
  solid = (refl, (refl, (refl, (refl, tt))));
}

user-IsPart : IsPart userlen (codes "u")
unfolding is_space has_class
user-IsPart = record { filled = omega arith; short = omega arith; solid = (refl, tt) }

host-IsPart : IsPart hostlen (codes "h.b")
unfolding is_space has_class
host-IsPart = record {
  filled = omega arith;
  short = omega arith;
  solid = (refl, (refl, (refl, tt)));
}

pretty_mask_complete_example : pretty_mask (codes "nick!u@h.b") ≡ codes "nick!u@h.b"
unfolding contains
pretty_mask_complete_example =
    pretty_mask_complete (codes "nick") (codes "u") (codes "h.b") nick-IsPart user-IsPart
      host-IsPart refl refl

print_int-value_example :
    (value 0 (print_int (pos 1000500)) ≡ 1000500)
    × (starts_zero (print_int (pos 1000500)) ≡ (1000500 == 0))
print_int-value_example = print_int-value 1000500 (omega arith)

channel_modes_lem_example :
    (contains b's' (channel_modes world 7 3 []).0 ≡ false)
    × (contains b'p' (channel_modes world 7 3 []).0 ≡ false)
    × (contains b'r' (channel_modes world 7 3 []).0 ≡ false)
    × (contains b'm' (channel_modes world 7 3 []).0 ≡ false)
    × (contains b't' (channel_modes world 7 3 []).0 ≡ false)
    × (contains b'i' (channel_modes world 7 3 []).0 ≡ true)
    × (contains b'n' (channel_modes world 7 3 []).0 ≡ false)
    × (contains b'l' (channel_modes world 7 3 []).0 ≡ true)
    × (contains b'k' (channel_modes world 7 3 []).0 ≡ true)
channel_modes_lem_example = channel_modes_lem world 7 3 []
