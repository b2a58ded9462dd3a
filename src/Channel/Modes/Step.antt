-- ===== src/Channel/Modes/Step.antt =====
-- What a letter of set_channel_mode in src/channel.c may do, as a relation on its variables: the
-- changes of the channel, each with the tests that guard it, and the steps that only count, read
-- on or answer the client.
use igniteircd.Prelude.{
  ℕ, ◌+◌, ◌≤◌, ◌<◌, ◌≡◌, Bool, true, false, ◌∷◌, ◌++◌, [], Text, length, ◌==◌, ◌||◌, ◌&&◌,
  if◌then◌else◌, some,
}
use igniteircd.Channel.{
  Channel, is_server, is_empowered, mode_moderated, mode_noprivmsgs, mode_inviteonly,
}
use igniteircd.Channel.Bans.{added, add_banid, del_banid, del_exceptid}
use igniteircd.Channel.Members.{sub1_from_channel}
use igniteircd.Channel.Modes.Run.{
  Call, Rights, Run, source, channel, is_mine, maxmodeparams, keylen, is_querying,
}
use igniteircd.Channel.Modes.Flags.{
  flag_on, flag_off, mark_done, uninvite, set_juped, set_limit, clear_limit, put_param,
}
use igniteircd.Channel.Modes.Params.{op_written, deop_marked, key_written}
use igniteircd.Channel.Modes.Masks.{ban_written, exception_written}
use igniteircd.Channel.Modes.Loop.{weight}

abbrev pub count : Bool → ℕ
count b = if b then 1 else 0

-- The letters of the flags and their bits.
pub data Flag : ℕ → ℕ → Type 0 where
  moderated : Flag b'm' mode_moderated
  no_messages : Flag b'n' mode_noprivmsgs
  is_private : Flag b'p' 8
  is_secret : Flag b's' 16
  topic_limit : Flag b't' 64
  invite_only : Flag b'i' mode_inviteonly
  registered : Flag b'r' 16384

-- The letters that are done, as far as each counts once.
abbrev pub letters_done : (ℕ → Bool) → ℕ
letters_done done =
    count (done b'm')
    + count (done b'n')
    + count (done b'p')
    + count (done b's')
    + count (done b't')
    + count (done b'i')
    + count (done b'r')

-- A step that changes no channel and announces nothing.
pub record Quiet (r r' : Run) : Type 0 where
  pub world : r'.world ≡ r.world
  pub opcnt : r'.opcnt ≡ r.opcnt
  pub mbuf : r'.mbuf ≡ r.mbuf
  pub mbuf_new : r'.mbuf_new ≡ r.mbuf_new
  pub keychange : r.keychange ≤ r'.keychange
  pub limitset : r.limitset ≤ r'.limitset
  pub done : letters_done r.done ≤ letters_done r'.done
  pub left : weight r'.parv ≤ weight r.parv

-- What put_once asks for, and its state afterwards.
pub data Ticket (c : Call) (letter : ℕ) : Run → Run → Type 0 where
  local_client : (r : Run) → r.done letter ≡ false → Ticket c letter r (mark_done letter r)
  other : (r : Run) → is_mine c r ≡ false → Ticket c letter r r

-- Who may change a flag: +r is for servers.
abbrev pub may_flag : Call → Rights → ℕ → Run → Bool
may_flag c g bit r = if bit == 16384 then is_server (r.world.client c.cptr) else g.isok

-- The count of parameters that a local client may still change.
abbrev pub HasRoom : Call → Run → Type 0
HasRoom c r = is_mine c r ≡ true → r.opcnt < maxmodeparams

pub data Step (c : Call) (g : Rights) : Run → Run → Type 0 where
  quiet : (r r' : Run) → Quiet r r' → Step c g r r'
  flag_set :
      (letter bit : ℕ) (r r' : Run)
      → Flag letter bit
      → may_flag c g bit r ≡ true
      → Ticket c letter r r'
      → Step c g r (flag_on c letter bit r')
  flag_cleared :
      (letter bit : ℕ) (r r' : Run)
      → Flag letter bit
      → may_flag c g bit r ≡ true
      → Ticket c letter r r'
      → Step c g r (flag_off c letter bit r')
  invites_ended :
      (r r' : Run)
      → g.isok ≡ true
      → Ticket c b'i' r r'
      → Step c g r (flag_off c b'i' mode_inviteonly (uninvite c r'))
  limit_set :
      (n : ℕ) (arg : Text) (r r' : Run)
      → g.isok ≡ true
      → r.limitset ≡ 0
      → Quiet r r'
      → r'.limitset ≡ 1
      → Step c g r (put_param b'+' b'l' arg (length arg) (set_limit c n r'))
  limit_cleared :
      (r r' : Run)
      → g.isok ≡ true
      → r.limitset ≡ 0
      → Quiet r r'
      → r'.limitset ≡ 1
      → Step c g r (record (clear_limit c r') { mbuf = r'.mbuf ++ b'-' ∷ b'l' ∷ [] })
  key_changed :
      (arg key : Text) (tmp : ℕ) (r r' : Run)
      → g.isok ≡ true
      → r.keychange ≡ 0
      → Quiet r r'
      → r'.keychange ≡ 1
      → length key ≤ keylen
      → is_querying r'.sign ≡ false
      → Step c g r (key_written c arg tmp key r')
  status_changed :
      (letter : ℕ) (arg : Text) (who : ℕ) (r : Run)
      → g.isok ≡ true
      → HasRoom c r
      → (letter == b'o' || letter == b'v') ≡ true
      → is_querying r.sign ≡ false
      → Step c g r (op_written c letter arg who r)
  marked_deopped :
      (letter who : ℕ) (r : Run) → g.isdeop ≡ true → Step c g r (deop_marked c letter who r)
  ban_set :
      (arg shown : Text) (ch : Channel) (r : Run)
      → g.isok ≡ true
      → HasRoom c r
      → is_querying r.sign ≡ false
      → add_banid (source c r) c.whowas.now (channel c r) arg ≡ (added, ch)
      → Step c g r (ban_written c shown (length arg) ch r)
  ban_removed :
      (arg : Text) (r : Run)
      → g.isok ≡ true
      → HasRoom c r
      → is_querying r.sign ≡ false
      → Step c g r (ban_written c arg (length arg) (del_banid (channel c r) (some arg)) r)
  exception_removed :
      (arg : Text) (r : Run)
      → g.isok ≡ true
      → HasRoom c r
      → Step c g r (exception_written c arg (del_exceptid (channel c r) (some arg)) r)
  juped :
      (b : Bool) (r : Run)
      → ((source c r).local_flag && is_empowered (source c r)) ≡ true
      → Step c g r (set_juped c b r)
  ended :
      (r : Run)
      → ((source c r).local_flag && is_empowered (source c r)) ≡ true
      → (channel c r).users ≡ 0
      → Step c g r (record r { world = sub1_from_channel r.world c.chptr })

-- The steps of a whole call.
pub data Steps (c : Call) (g : Rights) (r : Run) : Run → Type 0 where
  start : Steps c g r r
  after : (r' r'' : Run) → Steps c g r r' → Step c g r' r'' → Steps c g r r''

-- An invariant of the steps holds after them.
pub Steps-kept {ℓ} :
    {c : Call} {g : Rights} (P : Run → Type ℓ)
    → ((r r' : Run) → Step c g r r' → P r → P r')
    → (r r' : Run) → Steps c g r r'
    → P r
    → P r'
Steps-kept P kept r _ start p = p
Steps-kept P kept r r'' (after r' _ steps step) p =
    kept r' r'' step (Steps-kept P kept r r' steps p)
