-- ===== src/Channel/Modes/Run.antt =====
-- The variables of set_channel_mode in src/channel.c, and its small steps on them. A parameter
-- list that is empty stands for a `parc` of 0 or less.
use igniteircd.Prelude.{
  ℕ, ℤ, Bool, true, false, not, ◌&&◌, ◌||◌, Option, none, some, List, [], ◌∷◌, ◌++◌, Text, ◌==◌,
  if◌then◌else◌, bit_or,
}
use igniteircd.Hash.{Table, Objects, hash_find_client}
use igniteircd.Whowas
use igniteircd.Whowas.{get_history}
use igniteircd.Channel.{
  Client, Channel, World, Ban, set, has, my_client, is_server, stat_server, stat_me, chfl_chanop,
  chfl_deopped,
}
use igniteircd.Channel.Access.{user_channel_mode}

abbrev pub modebuflen : ℕ
modebuflen = 200

abbrev pub maxmodeparams : ℕ
maxmodeparams = 5

abbrev pub keylen : ℕ
keylen = 23

abbrev pub killchasetimelimit : ℕ
killchasetimelimit = 90

-- The arguments of the call, the tables that find_chasing reads, and the C library's `atoi`.
pub record Call : Type 0 where
  pub cptr : ℕ
  pub sptr : ℕ
  pub chptr : ℕ
  pub clients : Table
  pub whowas : Whowas.State
  pub atoi : Text → ℤ

-- `whatt`: MODE_ADD, MODE_DEL, MODE_QUERY.
pub data Sign : Type 0 where
  adding deleting querying : Sign

-- `plus`, which is always set with `whatt`.
abbrev pub plus : Sign → ℕ
plus adding = b'+'
plus deleting = b'-'
plus querying = b'='

abbrev pub whatt : Sign → ℕ
whatt adding = 1073741824
whatt deleting = 536870912
whatt querying = 268435456

abbrev pub is_adding : Sign → Bool
is_adding adding = true
is_adding deleting = false
is_adding querying = false

abbrev pub is_deleting : Sign → Bool
is_deleting adding = false
is_deleting deleting = true
is_deleting querying = false

abbrev pub is_querying : Sign → Bool
is_querying adding = false
is_querying deleting = false
is_querying querying = true

-- What is sent: a numeric to `sptr` with its own parameters, a line of a list to `cptr`, a change
-- to the channel and the servers, the refusal to deop an operator, the notices to the operators
-- and the log.
pub data Sent : Type 0 where
  numeric : ℕ → List Text → Sent
  list_line : ℕ → Ban → Sent
  mode_change : Text → Text → Sent
  new_mode_change : Text → Text → Sent
  unable_to_deop : ℕ → Sent
  opped_himself : Sent
  locally_juping : Bool → Sent

pub record Rights : Type 0 where
  pub chan_op : Bool
  pub ischop : Bool
  pub isdeop : Bool
  pub isok : Bool

-- `done` tells of each letter whether its `done_` variable is YES.
pub record Run : Type 0 where
  pub world : World
  pub parv : List Text
  pub sign : Sign
  pub errors_sent : ℕ
  pub opcnt : ℕ
  pub len : ℕ
  pub keychange : ℕ
  pub limitset : ℕ
  pub done : ℕ → Bool
  pub mbuf : Text
  pub pbuf : Text
  pub mbuf_new : Text
  pub pbuf_new : Text
  pub sent : List Sent

abbrev pub source : Call → Run → Client
source c r = r.world.client c.sptr

abbrev pub channel : Call → Run → Channel
channel c r = r.world.chan c.chptr

-- `MyClient(sptr)`
abbrev pub is_mine : Call → Run → Bool
is_mine c r = my_client (source c r)

abbrev pub say : Sent → Run → Run
say s r = record r { sent = r.sent ++ s ∷ [] }

abbrev pub marked : ℕ → Run → Run
marked err r = record r { errors_sent = bit_or r.errors_sent err }

-- `if (!errsent(err, &errors_sent))` and the message.
unfoldable pub say_once : ℕ → Sent → Run → Run
say_once err s r = if has r.errors_sent err then r else say s (marked err r)

abbrev pub sm_err_noops : ℕ
sm_err_noops = 2

abbrev pub need_ops : Sent
need_ops = numeric 482 []

-- `MyClient(sptr) && !errsent(...)`
unfoldable pub refuse : Call → Sent → Run → Run
refuse c s r = if is_mine c r then say_once sm_err_noops s r else r

-- `!errsent(...) && MyClient(sptr)`
unfoldable pub mark_and_refuse : Call → Run → Run
mark_and_refuse c r =
    if has r.errors_sent sm_err_noops
    then r
    else if is_mine c r
    then say need_ops (marked sm_err_noops r)
    else marked sm_err_noops r

abbrev pub tail : List Text → List Text
tail [] = []
tail (p ∷ parv) = parv

-- `parc--; parv++;`
abbrev pub eat : Run → Run
eat r = record r { parv = tail r.parv }

abbrev pub write : Call → Channel → Run → Run
write c ch r = record r { world = record r.world { chan = set r.world.chan c.chptr ch } }

abbrev pub set_bit : ℕ → Channel → Channel
set_bit bit ch = record ch { mode = record ch.mode { mode = bit_or ch.mode.mode bit } }

unfoldable pub has_link : ℕ → List ℕ → Bool
has_link p [] = false
has_link p (q ∷ links) = if q == p then true else has_link p links

-- IsMember
abbrev pub is_member : World → ℕ → ℕ → Bool
is_member w who chptr = (w.client who).has_user && has_link chptr (w.user who).channel

abbrev is_server_or_me : Client → Bool
is_server_or_me c = elim c.status [ stat_server ↦ true | stat_me ↦ true | _ ↦ false ]

abbrev pub client_objects : World → Objects
client_objects w = record {
  name_of = λ p. (w.client p).name;
  is_server_or_me = λ p. is_server_or_me (w.client p);
}

abbrev pub or_else : Option ℕ → Option ℕ → Option ℕ
or_else (some p) o = some p
or_else none o = o

-- Without its message; both searches are by the nickname.
pub find_chasing : Call → World → Text → Option ℕ
find_chasing c w user =
    or_else (hash_find_client (client_objects w) c.clients user none)
      (get_history user killchasetimelimit c.whowas)

-- The four rights, which are computed once.
unfoldable pub rights : Call → World → Rights
rights c w =
    let flags = user_channel_mode c.sptr (some (w.chan c.chptr)) in
    let s = w.client c.sptr in
    let chan_op = has flags chfl_chanop in
    let ischop = is_server s || chan_op || s.admin in
    let isdeop = not ischop && not (is_server s) && not s.admin && has flags chfl_deopped in
    record {
      chan_op = chan_op;
      ischop = ischop;
      isdeop = isdeop;
      isok =
          ischop
          || s.admin
          || (not isdeop && is_server (w.client c.cptr) && not ((w.chan c.chptr).channelts == 0));
    }
