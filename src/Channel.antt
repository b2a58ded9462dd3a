-- ===== src/Channel.antt =====
-- src/channel.c and include/channel.h: the channels, their members, bans and invitations, who
-- may join and who may speak. A channel and a client are named by their addresses; the links
-- that `user->channel`, `user->invited`, `members` and `invites` chain are lists, in the order
-- of the chains.
mod Samples
pub mod Set
pub mod Names
pub mod Bans
pub mod Members
pub mod Access
pub mod Modes
use igniteircd.Prelude.{
  ℕ, zero, suc, ◌+◌, ◌-◌, ℤ, pos, negsuc, Bool, true, false, not, ◌&&◌, Option, none, some, List,
  [], ◌∷◌, Text, ◌==◌, if◌then◌else◌, bit_and, map,
}
use igniteircd.Address.{InAddr}
use igniteircd.Hash.{Table, Objects}

pub data Status : Type 0 where
  stat_connecting stat_handshake stat_me stat_unknown stat_server stat_client : Status

-- `has_user` tells whether the client has a `user` block, `local_flag` whether it is connected
-- to this server, and `admin` and `oper` are FLAGS_ADMIN and FLAGS_OPER of its umodes.
pub record Client : Type 0 where
  pub name : Text
  pub username : Text
  pub host : Text
  pub ip : InAddr
  pub status : Status
  pub has_user : Bool
  pub local_flag : Bool
  pub admin : Bool
  pub oper : Bool

abbrev pub is_server : Client → Bool
is_server c = elim c.status [ stat_server ↦ true | _ ↦ false ]

abbrev pub is_client : Client → Bool
is_client c = elim c.status [ stat_client ↦ true | _ ↦ false ]

abbrev pub is_person : Client → Bool
is_person c = is_client c && c.has_user

abbrev pub my_client : Client → Bool
my_client c = c.local_flag && is_client c

abbrev pub is_empowered : Client → Bool
is_empowered c = if c.admin then true else c.oper

-- A link of a ban list, with what BAN_INFO keeps.
pub record Ban : Type 0 where
  pub banstr : Text
  pub who : Text
  pub when : ℕ

pub record Member : Type 0 where
  pub cptr : ℕ
  pub flags : ℕ

-- The limit is 0 or what MODE +l sets, which is positive; the negative number that a server can
-- give in SJOIN is left out.
pub record Mode : Type 0 where
  pub mode : ℕ
  pub limit : ℕ
  pub key : Text

pub record Channel : Type 0 where
  pub chname : Text
  pub mode : Mode
  pub users : ℕ
  pub members : List Member
  pub invites : List ℕ
  pub banlist : List Ban
  pub exceptlist : List Ban
  pub num_bed : ℕ
  pub juped : Bool
  pub channelts : ℕ

-- The part of a client's `user` block that names channels.
pub record User : Type 0 where
  pub channel : List ℕ
  pub invited : List ℕ
  pub joined : ℤ

-- `channel` is the list of all channels by `nextch`, `count` is Count.chan.
pub record World : Type 0 where
  pub client : ℕ → Client
  pub user : ℕ → User
  pub chan : ℕ → Channel
  pub channel : List ℕ
  pub table : Table
  pub count : ℤ

abbrev pub chfl_chanop : ℕ
chfl_chanop = 1

abbrev pub chfl_voice : ℕ
chfl_voice = 2

abbrev pub chfl_deopped : ℕ
chfl_deopped = 4

abbrev pub chfl_ban : ℕ
chfl_ban = 8

abbrev pub chfl_exception : ℕ
chfl_exception = 16

abbrev pub mode_moderated : ℕ
mode_moderated = 32

abbrev pub mode_inviteonly : ℕ
mode_inviteonly = 128

abbrev pub mode_noprivmsgs : ℕ
mode_noprivmsgs = 256

abbrev pub mode_flags : ℕ
mode_flags = 12287

abbrev pub mode_add : ℕ
mode_add = 1073741824

-- `flags & flag`, as a condition.
abbrev pub has : ℕ → ℕ → Bool
has flags flag = not (bit_and flags flag == 0)

-- A write to one address.
abbrev pub set {ℓ} : {A : Type ℓ} → (ℕ → A) → ℕ → A → ℕ → A
set f i x j = if j == i then x else f j

-- The first member link of a client.
unfoldable pub find_user_link : List Member → ℕ → Option Member
find_user_link [] p = none
find_user_link (m ∷ members) p = if m.cptr == p then some m else find_user_link members p
