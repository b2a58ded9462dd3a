-- ===== src/Channel/Modes/Loop.antt =====
-- The loop of set_channel_mode in src/channel.c over the letters, and its end.
use igniteircd.Prelude.{
  ℕ, zero, suc, ◌+◌, false, Option, none, some, List, [], ◌∷◌, Text, length, ◌==◌, ◌||◌,
  if◌then◌else◌,
}
use igniteircd.Channel.{World, mode_moderated, mode_noprivmsgs}
use igniteircd.Channel.Modes.Text.{collapse_signs}
use igniteircd.Channel.Modes.Flags.{flag_case, registered_case, invite_case, jupe_case, limit_case}
use igniteircd.Channel.Modes.Params.{op_case, key_case}
use igniteircd.Channel.Modes.Masks.{ban_case, exception_case}
use igniteircd.Channel.Modes.Run.{
  Call, Rights, Run, Sign, adding, deleting, querying, is_querying, Sent, numeric, mode_change,
  new_mode_change, is_mine, say, say_once, rights,
}

abbrev pub with_sign : Sign → Run → Run
with_sign sign r = record r { sign = sign }

unfoldable pub unknown_case : Call → ℕ → Run → Run
unknown_case c letter r =
    if is_querying r.sign
    then r
    else if is_mine c r
    then say_once 4 (numeric 472 ((letter ∷ []) ∷ [])) r
    else r

-- The `switch`, with SERVICES and JUPE_CHANNEL.
unfoldable pub mode_char : Call → Rights → ℕ → Run → Run
mode_char c g letter r =
    if letter == b'+'
    then with_sign adding r
    else if letter == b'-'
    then with_sign deleting r
    else if letter == b'='
    then with_sign querying r
    else if letter == b'o' || letter == b'v'
    then op_case c g letter r
    else if letter == b'k'
    then key_case c g r
    else if letter == b'e'
    then exception_case c g r
    else if letter == b'b'
    then ban_case c g r
    else if letter == b'l'
    then limit_case c g r
    else if letter == b'i'
    then invite_case c g r
    else if letter == b'j'
    then jupe_case c r
    else if letter == b'm'
    then flag_case c g b'm' mode_moderated r
    else if letter == b'n'
    then flag_case c g b'n' mode_noprivmsgs r
    else if letter == b'p'
    then flag_case c g b'p' 8 r
    else if letter == b's'
    then flag_case c g b's' 16 r
    else if letter == b'r'
    then registered_case c 16384 r
    else if letter == b't'
    then flag_case c g b't' 64 r
    else unknown_case c letter r

-- At the end of `curr`: the next parameter is read as modes.
unfoldable pub next_string : (Text → Run → Option Run) → List Text → Run → Option Run
next_string go [] r = some r
next_string go (p ∷ parv) r = go p (record r { parv = parv })

unfoldable pub mode_loop : ℕ → Call → Rights → Text → Run → Option Run
mode_loop zero c g curr r = none
mode_loop (suc fuel) c g [] r = next_string (λ curr r'. mode_loop fuel c g curr r') r.parv r
mode_loop (suc fuel) c g (letter ∷ curr) r = mode_loop fuel c g curr (mode_char c g letter r)

abbrev pub say_modes : (Text → Text → Sent) → Text → Text → Run → Run
say_modes change [] pbuf r = r
say_modes change (c ∷ mbuf) pbuf r = say (change (c ∷ mbuf) pbuf) r

abbrev pub finish : Run → Run
finish r =
    let mbuf = collapse_signs r.mbuf in
    let mbuf_new = collapse_signs r.mbuf_new in
    say_modes (λ m p. new_mode_change m p) mbuf_new r.pbuf_new
      (say_modes (λ m p. mode_change m p) mbuf r.pbuf
        (record r { mbuf = mbuf; mbuf_new = mbuf_new }))

abbrev pub started : World → List Text → Run
started w parv = record {
  world = w;
  parv = parv;
  sign = adding;
  errors_sent = 0;
  opcnt = 0;
  len = 0;
  keychange = 0;
  limitset = 0;
  done = λ letter. false;
  mbuf = [];
  pbuf = [];
  mbuf_new = [];
  pbuf_new = [];
  sent = [];
}

-- The characters that are left to read, and one for the end of each text.
abbrev pub weight : List Text → ℕ
weight [] = 1
weight (p ∷ parv) = length p + 1 + weight parv

abbrev pub finished : Option Run → Option Run
finished none = none
finished (some r) = some (finish r)

-- `curr` is the first parameter, `parv` the others.
unfoldable pub set_channel_mode : Call → World → Text → List Text → Option Run
set_channel_mode c w curr parv =
    finished (mode_loop (length curr + weight parv) c (rights c w) curr (started w parv))
