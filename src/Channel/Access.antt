-- ===== src/Channel/Access.antt =====
-- Who may join a channel and who may speak in it, in src/channel.c, and get_channel, which finds
-- or makes one.
pub mod Send
mod Flags
mod Laws
mod Tests
use igniteircd.Prelude.{
  ℕ, ◌+◌, ◌≤◌, ℤ, pos, Bool, true, false, not, ◌&&◌, ◌||◌, Option, none, some, List, [], ◌∷◌, Text,
  length, take, ltb, leb, ◌==◌, if◌then◌else◌, bit_and, bit_or,
}
use igniteircd.Mask.Compare.{same_name}
use igniteircd.Hash.{Objects, hash_find_channel, add_to_channel_hash_table}
use igniteircd.Channel.{
  Client, Channel, Member, User, World, Mode, find_user_link, set, has, my_client, chfl_ban,
  chfl_chanop, chfl_voice, chfl_deopped, mode_moderated, mode_inviteonly, mode_noprivmsgs,
}
use igniteircd.Channel.Bans.{is_banned}
use igniteircd.Channel.Members.{succ}

abbrev pub err_unavailresource : ℕ
err_unavailresource = 437

abbrev pub err_channelisfull : ℕ
err_channelisfull = 471

abbrev pub err_inviteonlychan : ℕ
err_inviteonlychan = 473

abbrev pub err_bannedfromchan : ℕ
err_bannedfromchan = 474

abbrev pub err_badchannelkey : ℕ
err_badchannelkey = 475

abbrev pub channellen : ℕ
channellen = 200

-- `lp->flags & flag` on the member link, 0 without one or without a channel.
pub member_flag : ℕ → Option Member → ℕ
member_flag flag none = 0
member_flag flag (some m) = bit_and m.flags flag

pub is_chan_op : ℕ → Option Channel → ℕ
is_chan_op cptr none = 0
is_chan_op cptr (some ch) = member_flag chfl_chanop (find_user_link ch.members cptr)

pub is_deopped : ℕ → Option Channel → ℕ
is_deopped cptr none = 0
is_deopped cptr (some ch) = member_flag chfl_deopped (find_user_link ch.members cptr)

pub has_voice : ℕ → Option Channel → ℕ
has_voice cptr none = 0
has_voice cptr (some ch) = member_flag chfl_voice (find_user_link ch.members cptr)

unfoldable pub member_flags : Option Member → ℕ
member_flags none = 0
member_flags (some m) = m.flags

unfoldable pub user_channel_mode : ℕ → Option Channel → ℕ
user_channel_mode cptr none = 0
user_channel_mode cptr (some ch) = member_flags (find_user_link ch.members cptr)

abbrev pub is_some : Option Member → Bool
is_some none = false
is_some (some m) = true

-- `!lp || !(lp->flags & (CHFL_CHANOP|CHFL_VOICE))`, negated.
pub may_speak : Option Member → Bool
may_speak none = false
may_speak (some m) = has m.flags (chfl_chanop + chfl_voice)

-- 0 where the client may send, with JUPE_CHANNEL.
pub can_send : World → ℕ → Channel → ℕ
can_send w cptr ch =
    let lp = find_user_link ch.members cptr in
    if my_client (w.client cptr) && ch.juped
    then 1
    else if has ch.mode.mode mode_moderated && not (may_speak lp)
    then mode_moderated
    else if has ch.mode.mode mode_noprivmsgs && not (is_some lp)
    then mode_noprivmsgs
    else 0

-- The walk over the client's invitations.
pub is_invited : ℕ → List ℕ → Bool
is_invited chptr [] = false
is_invited chptr (q ∷ invited) = if q == chptr then true else is_invited chptr invited

-- `*chptr->mode.key && (BadPtr(key) || irccmp(chptr->mode.key, key))`; NULL is the empty key.
pub is_wrong_key : Text → Text → Bool
is_wrong_key [] key = false
is_wrong_key (c ∷ need) [] = true
is_wrong_key (c ∷ need) (d ∷ key) = not (same_name (c ∷ need) (d ∷ key))

-- The numeric of the refusal, 0 where the client may join, and `*flags` afterwards.
pub can_join : World → ℕ → ℕ → Text → ℕ → ℕ × ℕ
can_join w sptr chptr key flags =
    let ch = w.chan chptr in
    let banned = is_banned (w.client sptr) ch in
    let charmed = bit_or flags banned in
    if ch.juped
    then (err_unavailresource, flags)
    else if (w.client sptr).admin
    then (0, flags)
    else if banned == chfl_ban
    then (err_bannedfromchan, flags)
    else if has ch.mode.mode mode_inviteonly && not (is_invited chptr (w.user sptr).invited)
    then (err_inviteonlychan, charmed)
    else if is_wrong_key ch.mode.key key
    then (err_badchannelkey, charmed)
    else if not (ch.mode.limit == 0) && leb ch.mode.limit ch.users
    then (err_channelisfull, charmed)
    else (0, charmed)

-- The names in the channels, as the hash table reads them.
abbrev pub channel_objects : World → Objects
channel_objects w = record { name_of = λ p. (w.chan p).chname; is_server_or_me = λ p. false }

-- MyMalloc and memset: an empty channel; `now` is CurrentTime.
pub new_channel : Text → ℕ → Channel
new_channel chname now = record {
  chname = chname;
  mode = record { mode = 0; limit = 0; key = [] };
  users = 0;
  members = [];
  invites = [];
  banlist = [];
  exceptlist = [];
  num_bed = 0;
  juped = false;
  channelts = now;
}

pub create_channel : World → Text → ℕ → ℕ → World
create_channel w chname now fresh = record w {
  chan = set w.chan fresh (new_channel chname now);
  channel = fresh ∷ w.channel;
  table = add_to_channel_hash_table chname fresh w.table;
  count = succ w.count;
}

-- What follows the search of get_channel. `fresh` is the address that MyMalloc returns.
pub found_or_created : World → Text → Bool → ℕ → ℕ → Option ℕ → World × Option ℕ
found_or_created w chname create now fresh (some p) = (w, some p)
found_or_created w chname create now fresh none =
    if create then (create_channel w chname now fresh, some fresh) else (w, none)

-- The caller's text is cut off too.
pub cut_name : Client → Text → Text
cut_name c chname =
    if my_client c && ltb channellen (length chname) then take channellen chname else chname

pub get_channel : World → ℕ → Text → Bool → ℕ → ℕ → World × Option ℕ
get_channel w cptr [] create now fresh = (w, none)
get_channel w cptr (c ∷ cs) create now fresh =
    let chname = cut_name (w.client cptr) (c ∷ cs) in
    found_or_created w chname create now fresh
      (hash_find_channel (channel_objects w) w.table chname none)
