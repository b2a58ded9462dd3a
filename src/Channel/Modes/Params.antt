-- ===== src/Channel/Modes/Params.antt =====
-- The cases o, v and k of set_channel_mode in src/channel.c.
use igniteircd.Prelude.{
  ℕ, ◌+◌, Bool, true, false, not, ◌&&◌, Option, none, some, List, [], ◌∷◌, Text, take, length, leb,
  ◌==◌, if◌then◌else◌, bit_or,
}
use igniteircd.Channel.{Channel, chfl_chanop, chfl_voice}
use igniteircd.Channel.Names.{check_string}
use igniteircd.Channel.Members.{change_chan_flag, set_deopped}
use igniteircd.Channel.Modes.Text.{fix_key, fix_key_old}
use igniteircd.Channel.Modes.Flags.{put_param}
use igniteircd.Channel.Modes.Run.{
  Call, Rights, Run, Sign, plus, whatt, is_adding, is_deleting, is_querying, numeric, mode_change,
  unable_to_deop, opped_himself, source, channel, is_mine, say, say_once, refuse, mark_and_refuse,
  need_ops, write, eat, is_member, find_chasing, modebuflen, maxmodeparams, keylen,
}

abbrev pub the_mode : ℕ → ℕ
the_mode letter = if letter == b'o' then chfl_chanop else chfl_voice

-- change_chan_flag and what is said of it; the name may be longer than the argument.
abbrev pub op_written : Call → ℕ → Text → ℕ → Run → Run
op_written c letter arg who r =
    let put = put_param (plus r.sign) letter (r.world.client who).name (length arg) r in
    write c (change_chan_flag (channel c r) who (bit_or (the_mode letter) (whatt r.sign)))
      (record put { opcnt = r.opcnt + 1 })

unfoldable pub op_change : Call → Rights → ℕ → Text → ℕ → Run → Run
op_change c g letter arg who r =
    if not g.isok
    then refuse c need_ops r
    else if leb modebuflen (r.len + length arg + 2)
    then r
    else op_written c letter arg who r

-- `sptr->name == who->name` compares the arrays' addresses.
unfoldable pub deop : Call → Rights → ℕ → Text → ℕ → Run → Run
deop c g letter arg who r =
    let w = r.world in
    if (w.client c.sptr).admin && (w.client who).admin && c.sptr == who
    then say (mode_change (b'-' ∷ b'o' ∷ []) (w.client who).name) r
    else if (w.client who).admin
    then say (unable_to_deop who) r
    else op_change c g letter arg who r

abbrev pub log_own_op : Call → Rights → ℕ → ℕ → Run → Run
log_own_op c g letter who r =
    if who == c.sptr && letter == b'o' && is_adding r.sign && (source c r).admin && not g.chan_op
    then say opped_himself r
    else r

abbrev pub deop_marked : Call → ℕ → ℕ → Run → Run
deop_marked c letter who r = write c (set_deopped who (channel c r) (the_mode letter)) r

abbrev pub mark_deopped : Call → Rights → ℕ → ℕ → Run → Run
mark_deopped c g letter who r =
    if g.isdeop && letter == b'o' && is_adding r.sign then deop_marked c letter who r else r

unfoldable pub op_or_deop : Call → Rights → ℕ → Text → ℕ → Run → Run
op_or_deop c g letter arg who r =
    if letter == b'o' && is_deleting r.sign
    then deop c g letter arg who r
    else op_change c g letter arg who r

unfoldable pub op_found : Call → Rights → ℕ → Text → Option ℕ → Run → Run
op_found c g letter arg none r = say (numeric 401 (arg ∷ [])) r
op_found c g letter arg (some who) r =
    if not (r.world.client who).has_user
    then r
    else if not (is_member r.world who c.chptr)
    then (if is_mine c r then say (numeric 441 (arg ∷ (channel c r).chname ∷ [])) r else r)
    else op_or_deop c g letter arg who (mark_deopped c g letter who (log_own_op c g letter who r))

unfoldable pub op_param : Call → Rights → ℕ → List Text → Run → Run
op_param c g letter [] r = r
op_param c g letter (p ∷ parv) r =
    let arg = check_string (some p) in
    if is_mine c r && leb maxmodeparams r.opcnt
    then r
    else op_found c g letter arg (find_chasing c r.world arg) r

-- Without LITTLE_I_LINES and HIDE_OPS.
unfoldable pub op_case : Call → Rights → ℕ → Run → Run
op_case c g letter r =
    if is_mine c r && not (is_member r.world c.sptr c.chptr)
    then eat (say_once 0x40 (numeric 442 ((channel c r).chname ∷ [])) r)
    else if is_querying r.sign
    then r
    else op_param c g letter r.parv (eat r)

-- strcmp
pub same_text : Text → Text → Bool
same_text [] [] = true
same_text [] (_ ∷ _) = false
same_text (_ ∷ _) [] = false
same_text (c ∷ s) (d ∷ t) = let rest = same_text s t in if c == d then rest else false

unfoldable pub key_arg : Sign → Bool → List Text → Option Text
key_arg sign mine [] = if is_deleting sign then some (b'*' ∷ []) else none
key_arg sign mine (p ∷ parv) =
    let arg = check_string (some p) in
    some (if is_deleting sign then arg else if mine then fix_key arg else fix_key_old arg)

abbrev pub with_key : Channel → Text → Channel
with_key ch key = record ch { mode = record ch.mode { key = key } }

-- `tmp` is the length of the argument as it was given.
abbrev pub key_written : Call → Text → ℕ → Text → Run → Run
key_written c arg tmp key r =
    write c (with_key (channel c r) key) (put_param (plus r.sign) b'k' arg tmp r)

abbrev pub key_set : Call → Text → Run → Run
key_set c arg r = key_written c arg (length arg) (take keylen arg) r

-- The old key is taken off first.
unfoldable pub key_added : Call → Text → Text → Run → Run
key_added c arg [] r = key_set c arg r
key_added c arg (d ∷ old) r =
    if same_text (d ∷ old) arg
    then r
    else key_set c arg (say (mode_change (b'-' ∷ b'k' ∷ []) (d ∷ old)) r)

unfoldable pub key_deleted : Call → Text → Text → Run → Run
key_deleted c arg key r =
    if same_text arg (b'*' ∷ [])
    then key_written c key (length arg) [] r
    else if same_text arg key
    then key_written c arg (length arg) [] r
    else r

unfoldable pub key_cut : Call → Text → Run → Run
key_cut c arg r =
    let key = (channel c r).mode.key in
    if leb modebuflen (r.len + length arg + 2)
    then r
    else if is_deleting r.sign
    then key_deleted c arg key r
    else key_added c arg key r

unfoldable pub key_once : Call → Rights → Text → Run → Run
key_once c g [] r = r
key_once c g (d ∷ arg) r =
    if not g.isok then mark_and_refuse c r else key_cut c (take keylen (d ∷ arg)) r

unfoldable pub key_param : Call → Rights → Option Text → Run → Run
key_param c g none r = r
key_param c g (some arg) r =
    let counted = record r { keychange = r.keychange + 1 } in
    if r.keychange == 0 then key_once c g arg counted else counted

unfoldable pub key_case : Call → Rights → Run → Run
key_case c g r =
    if is_querying r.sign then r else key_param c g (key_arg r.sign (is_mine c r) r.parv) (eat r)
