-- ===== src/Channel/Modes/Flags.antt =====
-- The cases of set_channel_mode in src/channel.c without a parameter, and +l.
use igniteircd.Prelude.{
  ℕ, zero, suc, ◌+◌, ℤ, pos, negsuc, Bool, true, false, not, ◌&&◌, some, List, [], ◌∷◌, ◌++◌, Text,
  length, leb, ◌==◌, if◌then◌else◌, codes,
}
use igniteircd.Channel.{Channel, set, is_server, is_empowered, mode_inviteonly}
use igniteircd.Channel.Names.{check_string}
use igniteircd.Channel.Members.{free_invites, sub1_from_channel, without}
use igniteircd.Channel.Modes.Number.{print_int}
use igniteircd.Channel.Modes.Run.{
  Call, Rights, Run, Sign, adding, deleting, querying, is_adding, is_querying, numeric,
  locally_juping, source, channel, is_mine, say, refuse, need_ops, write, set_bit, eat, modebuflen,
}

abbrev pub mode_limit : ℕ
mode_limit = 8192

abbrev pub clear_bit : ℕ → Channel → Channel
clear_bit bit ch = record ch { mode = record ch.mode { mode = without ch.mode.mode bit } }

-- `*mbufw++ = sign; *mbufw++ = letter; len += 2;`
abbrev pub put_letter : ℕ → ℕ → Run → Run
put_letter sign letter r = record r { mbuf = r.mbuf ++ sign ∷ letter ∷ []; len = r.len + 2 }

abbrev pub flag_on : Call → ℕ → ℕ → Run → Run
flag_on c letter bit r = put_letter b'+' letter (write c (set_bit bit (channel c r)) r)

abbrev pub flag_off : Call → ℕ → ℕ → Run → Run
flag_off c letter bit r = put_letter b'-' letter (write c (clear_bit bit (channel c r)) r)

-- MODE_QUERY is treated as MODE_DEL.
unfoldable pub put_flag : Call → ℕ → ℕ → Run → Run
put_flag c letter bit r =
    if leb modebuflen (r.len + 2)
    then r
    else if is_adding r.sign
    then flag_on c letter bit r
    else flag_off c letter bit r

abbrev pub mark_done : ℕ → Run → Run
mark_done letter r = record r { done = set r.done letter true }

-- A local client's letter counts once.
unfoldable pub put_once : Call → ℕ → (Run → Run) → Run → Run
put_once c letter put r =
    if is_mine c r then (if r.done letter then r else put (mark_done letter r)) else put r

unfoldable pub flag_case : Call → Rights → ℕ → ℕ → Run → Run
flag_case c g letter bit r =
    if not g.isok then refuse c need_ops r else put_once c letter (put_flag c letter bit) r

unfoldable pub registered_case : Call → ℕ → Run → Run
registered_case c bit r =
    if not (is_server (r.world.client c.cptr))
    then refuse c (numeric 481 []) r
    else put_once c b'r' (put_flag c b'r' bit) r

-- The invitations end with MODE_INVITEONLY.
abbrev pub uninvite : Call → Run → Run
uninvite c r = record r { world = free_invites (length (channel c r).invites) r.world c.chptr }

unfoldable pub put_invite : Call → Run → Run
put_invite c r =
    if leb modebuflen (r.len + 2)
    then r
    else if is_adding r.sign
    then flag_on c b'i' mode_inviteonly r
    else flag_off c b'i' mode_inviteonly (uninvite c r)

unfoldable pub invite_case : Call → Rights → Run → Run
invite_case c g r =
    if is_querying r.sign
    then r
    else if not g.isok
    then refuse c need_ops r
    else put_once c b'i' (put_invite c) r

abbrev pub set_juped : Call → Bool → Run → Run
set_juped c b r = write c (record (channel c r) { juped = b }) r

-- With JUPE_CHANNEL. The end of the channel frees it, and the loop goes on with it.
unfoldable pub end_if_empty : Call → Run → Run
end_if_empty c r =
    if (channel c r).users == 0 then record r { world = sub1_from_channel r.world c.chptr } else r

unfoldable pub jupe_change : Call → Sign → Run → Run
jupe_change c adding r = say (locally_juping true) (set_juped c true r)
jupe_change c deleting r = end_if_empty c (say (locally_juping false) (set_juped c false r))
jupe_change c querying r = r

unfoldable pub jupe_case : Call → Run → Run
jupe_case c r =
    if (source c r).local_flag && is_empowered (source c r) then jupe_change c r.sign r else r

abbrev pub set_limit : Call → ℕ → Run → Run
set_limit c n r =
    let ch = channel c r in
    write c
      (record (set_bit mode_limit ch) { mode = record (set_bit mode_limit ch).mode { limit = n } })
      r

abbrev pub clear_limit : Call → Run → Run
clear_limit c r =
    let ch = clear_bit mode_limit (channel c r) in
    write c (record ch { mode = record ch.mode { limit = 0 } }) r

-- The letter with its parameter; `len` grows by the length `tmp` and one.
abbrev pub put_param : ℕ → ℕ → Text → ℕ → Run → Run
put_param sign letter arg tmp r = record r {
  mbuf = r.mbuf ++ sign ∷ letter ∷ [];
  pbuf = r.pbuf ++ arg ++ b' ' ∷ [];
  len = r.len + (tmp + 1);
}

-- `atoi` is positive: the number is printed anew.
unfoldable pub put_limit : Call → ℤ → Run → Run
put_limit c (pos zero) r = r
put_limit c (negsuc n) r = r
put_limit c (pos (suc n)) r =
    let arg = print_int (pos (suc n)) in
    if leb modebuflen (r.len + length arg + 2)
    then r
    else put_param b'+' b'l' arg (length arg) (set_limit c (suc n) r)

unfoldable pub limit_param : Call → List Text → Run → Run
limit_param c [] r = if is_mine c r then say (numeric 461 (codes "MODE +l" ∷ [])) r else r
limit_param c (p ∷ parv) r = put_limit c (c.atoi (check_string (some p))) (eat r)

-- The removal leaves `len` as it is.
unfoldable pub limit_change : Call → Run → Run
limit_change c r =
    if is_adding r.sign
    then limit_param c r.parv r
    else record (clear_limit c r) { mbuf = r.mbuf ++ b'-' ∷ b'l' ∷ [] }

abbrev pub skip_if_adding : Run → Run
skip_if_adding r = if is_adding r.sign then eat r else r

-- `limitset++` is reached with `isok` only.
unfoldable pub limit_case : Call → Rights → Run → Run
limit_case c g r =
    if is_querying r.sign
    then r
    else if not g.isok
    then skip_if_adding r
    else (let counted = record r { limitset = r.limitset + 1 } in
        if r.limitset == 0 then limit_change c counted else skip_if_adding counted)
