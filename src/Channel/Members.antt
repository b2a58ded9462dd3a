-- ===== src/Channel/Members.antt =====
-- The links between users and channels in src/channel.c: membership, invitations, and the end
-- of a channel that nobody is in. free_fluders, which releases the flood records of an ended
-- channel, is not here; it changes none of this state.
pub mod Links
pub mod Ending
pub mod Emptied
pub mod Leave
pub mod Table
pub mod Invite
pub mod Modes
mod Tests
use igniteircd.Prelude.{
  ℕ, zero, suc, ◌+◌, ◌-◌, ℤ, pos, negsuc, Bool, true, false, ◌&&◌, Option, none, some, List, [],
  ◌∷◌, ◌++◌, length, leb, ◌==◌, if◌then◌else◌, bit_and, bit_or, not,
}
use igniteircd.Hash.{del_from_channel_hash_table}
use igniteircd.Channel.{
  Channel, Member, User, World, find_user_link, set, has, chfl_exception, chfl_chanop, chfl_deopped,
  mode_add, mode_flags,
}
use igniteircd.Channel.Bans.{del_matching_exception, free_bans_exceptions_denies}

abbrev pub max_channels_per_user : ℕ
max_channels_per_user = 10

-- `joined++`, `joined--`, `Count.chan--`
pub succ : ℤ → ℤ
succ (pos n) = pos (n + 1)
succ (negsuc zero) = pos 0
succ (negsuc (suc n)) = negsuc n

pub pred : ℤ → ℤ
pred (pos zero) = negsuc 0
pred (pos (suc n)) = pos n
pred (negsuc n) = negsuc (n + 1)

-- The chain without its first link to `p`, if there is one.
pub drop_link : ℕ → List ℕ → List ℕ
drop_link p [] = []
drop_link p (q ∷ links) = let rest = drop_link p links in if q == p then links else q ∷ rest

pub drop_member : ℕ → List Member → List Member
drop_member p [] = []
drop_member p (m ∷ members) =
    let rest = drop_member p members in if m.cptr == p then members else m ∷ rest

pub add_user_to_channel : World → ℕ → ℕ → ℕ → World
add_user_to_channel w chptr who flags =
    let ch = w.chan chptr in
    let user = w.user who in
    if (w.client who).has_user
    then record w {
      chan = set w.chan chptr (record ch {
        members = record { cptr = who; flags = flags } ∷ ch.members;
        users = ch.users + 1;
      });
      user =
          set w.user who
            (record user { channel = chptr ∷ user.channel; joined = succ user.joined });
    }
    else w

pub del_invite : World → ℕ → ℕ → World
del_invite w cptr chptr =
    let ch = w.chan chptr in
    let user = w.user cptr in
    record w {
      chan = set w.chan chptr (record ch { invites = drop_link cptr ch.invites });
      user = set w.user cptr (record user { invited = drop_link chptr user.invited });
    }

-- `while ((tmp = chptr->invites)) del_invite(tmp->value.cptr, chptr);`: a round with the links
-- that are left, and the loop.
pub next_invite : (World → World) → World → ℕ → List ℕ → World
next_invite rest w chptr [] = w
next_invite rest w chptr (cptr ∷ links) = rest (del_invite w cptr chptr)

pub free_invites : ℕ → World → ℕ → World
free_invites zero w chptr = w
free_invites (suc fuel) w chptr =
    next_invite (λ w'. free_invites fuel w' chptr) w chptr (w.chan chptr).invites

-- The channel is unlinked from the list and from the hash table, and freed: its ban lists are
-- empty, and nothing of it is read again.
pub free_channel : World → ℕ → World
free_channel w chptr =
    let ch = w.chan chptr in
    record w {
      chan = set w.chan chptr (free_bans_exceptions_denies ch);
      channel = drop_link chptr w.channel;
      table = del_from_channel_hash_table ch.chname chptr w.table;
      count = pred w.count;
    }

-- A juped channel stays.
pub end_channel : Bool → World → ℕ → World
end_channel true w chptr = w
end_channel false w chptr = free_channel w chptr

-- `users` stays at 0 where `--users` would pass it.
pub sub1_from_channel : World → ℕ → World
sub1_from_channel w chptr =
    let ch = w.chan chptr in
    let emptied = record w { chan = set w.chan chptr (record ch { users = 0 }) } in
    let freed = free_invites (length ch.invites) emptied chptr in
    if leb ch.users 1
    then end_channel ch.juped freed chptr
    else record w { chan = set w.chan chptr (record ch { users = ch.users - 1 }) }

-- The exception of a client that is kicked goes with its member link.
pub charmed_out : World → ℕ → Channel → Bool → Option Member → Channel
charmed_out w sptr ch was_kicked none = ch
charmed_out w sptr ch was_kicked (some m) =
    if was_kicked && has m.flags chfl_exception
    then del_matching_exception (w.client sptr) ch
    else ch

pub remove_user_from_channel : World → ℕ → ℕ → Bool → World
remove_user_from_channel w sptr chptr was_kicked =
    let ch =
      charmed_out w sptr (w.chan chptr) was_kicked (find_user_link (w.chan chptr).members sptr) in
    let user = w.user sptr in
    sub1_from_channel
      (record w {
        chan = set w.chan chptr (record ch { members = drop_member sptr ch.members });
        user =
            set w.user sptr
              (record user { channel = drop_link chptr user.channel; joined = pred user.joined });
      })
      chptr

-- The first link of the client's invitations, if it has as many as it may have.
pub oldest_invite : List ℕ → Option ℕ
oldest_invite [] = none
oldest_invite (chptr ∷ links) =
    if leb max_channels_per_user (length (chptr ∷ links)) then some chptr else none

pub make_room : World → ℕ → Option ℕ → World
make_room w cptr none = w
make_room w cptr (some chptr) = del_invite w cptr chptr

pub add_invite : World → ℕ → ℕ → World
add_invite w cptr chptr =
    let once = del_invite w cptr chptr in
    let w' = make_room once cptr (oldest_invite (once.user cptr).invited) in
    let ch = w'.chan chptr in
    let user = w'.user cptr in
    record w' {
      chan = set w'.chan chptr (record ch { invites = cptr ∷ ch.invites });
      user = set w'.user cptr (record user { invited = user.invited ++ chptr ∷ [] });
    }

-- `flags & ~flag`
pub without : ℕ → ℕ → ℕ
without flags flag = flags - bit_and flags flag

-- The member's flags after change_chan_flag; `~flag & MODE_FLAGS` keeps other bits of MODE_FLAGS.
pub changed_flags : ℕ → ℕ → ℕ
changed_flags flag flags =
    let on = bit_or flags (bit_and flag mode_flags) in
    if has flag mode_add
    then (if has flag chfl_chanop then without on chfl_deopped else on)
    else bit_and flags (without mode_flags flag)

-- Changes the flags of the client's first member link.
pub change_first : (ℕ → ℕ) → List Member → ℕ → List Member
change_first f [] p = []
change_first f (m ∷ members) p =
    let rest = change_first f members p in
    if m.cptr == p then record { cptr = m.cptr; flags = f m.flags } ∷ members else m ∷ rest

pub change_chan_flag : Channel → ℕ → ℕ → Channel
change_chan_flag ch cptr flag = record ch {
  members = change_first (changed_flags flag) ch.members cptr;
}

pub set_deopped : ℕ → Channel → ℕ → Channel
set_deopped cptr ch flag = record ch {
  members =
      change_first (λ flags. if has flags flag then flags else bit_or flags chfl_deopped) ch.members
        cptr;
}
