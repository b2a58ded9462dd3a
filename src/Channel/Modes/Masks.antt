-- ===== src/Channel/Modes/Masks.antt =====
-- The cases b and e of set_channel_mode in src/channel.c, with BAN_INFO and without CHANMODE_E
-- and HIDE_OPS.
use igniteircd.Prelude.{
  ℕ, ◌+◌, Bool, false, not, ◌&&◌, some, List, [], ◌∷◌, ◌++◌, Text, length, leb, ◌==◌, if◌then◌else◌,
  map,
}
use igniteircd.Mask.Collapse.{collapse}
use igniteircd.Channel.{Channel, Ban, has}
use igniteircd.Channel.Names.{check_string}
use igniteircd.Channel.Bans.{
  Answer, added, list_full, covered, add_banid, del_banid, del_exceptid, collapsed,
}
use igniteircd.Channel.Modes.Text.{pretty_mask}
use igniteircd.Channel.Modes.Flags.{put_param}
use igniteircd.Channel.Modes.Run.{
  Call, Rights, Run, Sign, adding, deleting, querying, plus, is_adding, is_querying, numeric,
  list_line, source, channel, is_mine, say, marked, mark_and_refuse, need_ops, write, eat,
  modebuflen, maxmodeparams,
}

-- The lines and the end of a list.
abbrev pub send_list : ℕ → ℕ → List Ban → Run → Run
send_list line end bans r = record r {
  sent = r.sent ++ map (λ b. list_line line b) bans ++ numeric end [] ∷ [];
}

abbrev pub sm_err_rpl_b : ℕ
sm_err_rpl_b = 16

abbrev pub sm_err_rpl_e : ℕ
sm_err_rpl_e = 32

unfoldable pub list_bans : Call → Run → Run
list_bans c r =
    if not (is_mine c r)
    then r
    else if has r.errors_sent sm_err_rpl_b
    then r
    else send_list 367 368 (channel c r).banlist (marked sm_err_rpl_b r)

unfoldable pub list_exceptions : Call → Rights → Run → Run
list_exceptions c g r =
    if not (is_mine c r)
    then r
    else if has r.errors_sent sm_err_rpl_e
    then r
    else if g.isok
    then send_list 348 349 (channel c r).exceptlist (marked sm_err_rpl_e r)
    else say need_ops (marked sm_err_rpl_e r)

abbrev pub starts_colon : Text → Bool
starts_colon [] = false
starts_colon (c ∷ s) = c == b':'

-- `arg` is what stands in the text after the call, `tmp` its length before.
abbrev pub ban_written : Call → Text → ℕ → Channel → Run → Run
ban_written c arg tmp ch r =
    write c ch (record (put_param (plus r.sign) b'b' arg tmp r) { opcnt = r.opcnt + 1 })

unfoldable pub ban_added : Call → Text → Answer × Channel → Run → Run
ban_added c arg (added, ch) r = ban_written c (collapsed (source c r) arg) (length arg) ch r
ban_added c arg (list_full, ch) r = r
ban_added c arg (covered, ch) r = r

unfoldable pub ban_change : Call → Sign → Text → Run → Run
ban_change c adding arg r =
    ban_added c arg (add_banid (source c r) c.whowas.now (channel c r) arg) r
ban_change c deleting arg r = ban_written c arg (length arg) (del_banid (channel c r) (some arg)) r
ban_change c querying arg r = r

unfoldable pub ban_mask : Call → Text → Run → Run
ban_mask c arg r = if leb modebuflen (r.len + length arg + 2) then r else ban_change c r.sign arg r

unfoldable pub ban_arg : Call → Rights → Text → Run → Run
ban_arg c g arg r =
    if is_mine c r && leb maxmodeparams r.opcnt
    then r
    else if not g.isok
    then mark_and_refuse c r
    else if is_mine c r
    then (if starts_colon arg && is_adding r.sign
        then eat r
        else ban_mask c (collapse (pretty_mask arg)) r)
    else ban_mask c arg r

unfoldable pub ban_param : Call → Rights → List Text → Run → Run
ban_param c g [] r = list_bans c r
ban_param c g (p ∷ parv) r = ban_arg c g (check_string (some p)) (eat r)

unfoldable pub ban_case : Call → Rights → Run → Run
ban_case c g r = if is_querying r.sign then list_bans c r else ban_param c g r.parv r

abbrev pub exception_written : Call → Text → Channel → Run → Run
exception_written c arg ch r = write c ch (record r {
  len = r.len + (length arg + 1);
  opcnt = r.opcnt + 1;
  mbuf_new = r.mbuf_new ++ plus r.sign ∷ b'e' ∷ [];
  pbuf_new = r.pbuf_new ++ arg ++ b' ' ∷ [];
})

unfoldable pub exception_change : Call → Sign → Text → Run → Run
exception_change c adding arg r = r
exception_change c deleting arg r =
    exception_written c arg (del_exceptid (channel c r) (some arg)) r
exception_change c querying arg r = r

unfoldable pub exception_mask : Call → Text → Run → Run
exception_mask c arg r =
    if starts_colon arg
    then eat r
    else if leb modebuflen (r.len + length arg + 2)
    then r
    else exception_change c r.sign arg r

unfoldable pub exception_arg : Call → Rights → Text → Run → Run
exception_arg c g arg r =
    if is_mine c r && leb maxmodeparams r.opcnt
    then r
    else if not g.isok
    then mark_and_refuse c r
    else exception_mask c (if is_mine c r then collapse (pretty_mask arg) else arg) r

unfoldable pub exception_param : Call → Rights → List Text → Run → Run
exception_param c g [] r = list_exceptions c g r
exception_param c g (p ∷ parv) r = exception_arg c g (check_string (some p)) (eat r)

unfoldable pub exception_case : Call → Rights → Run → Run
exception_case c g r =
    if is_querying r.sign then list_exceptions c g r else exception_param c g r.parv r
