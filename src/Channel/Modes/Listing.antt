-- ===== src/Channel/Modes/Listing.antt =====
-- channel_modes of src/channel.c, with SERVICES: the simple modes of a channel as a text.
use igniteircd.Prelude.{
  ℕ, ◌≡◌, refl, Bool, true, false, not, ◌&&◌, ◌||◌, List, [], ◌∷◌, ◌++◌, Text, pos, ◌==◌,
  if◌then◌else◌, arith, ◌∙◌,
}
use igniteircd.Channel.{
  World, Channel, has, is_server, mode_moderated, mode_inviteonly, mode_noprivmsgs,
}
use igniteircd.Channel.Modes.Text.{contains}
use igniteircd.Channel.Modes.Number.{print_int}
use igniteircd.Channel.Modes.Run.{is_member}

-- `if (b) *mbuf++ = letter;`
pub put_if : Bool → ℕ → Text → Text
put_if true letter s = letter ∷ s
put_if false letter s = s

abbrev pub is_set : Text → Bool
is_set [] = false
is_set (c ∷ s) = true

-- The letters behind the `+`.
pub mode_letters : Channel → Text
mode_letters ch =
    let bits = ch.mode.mode in
    put_if (has bits 16) b's' (
      put_if (has bits 8) b'p' (
        put_if (has bits 16384) b'r' (
          put_if (has bits mode_moderated) b'm' (
            put_if (has bits 64) b't' (
              put_if (has bits mode_inviteonly) b'i' (
                put_if (has bits mode_noprivmsgs) b'n' (
                  put_if (not (ch.mode.limit == 0)) b'l'
                    (put_if (is_set ch.mode.key) b'k' []))))))))

-- The parameters are shown to the members and to servers; they stand behind what `pbuf` holds:
-- the limit is printed over its start, the key is added to its end.
pub shown_limit : Bool → ℕ → Text → Text
shown_limit shown limit pbuf =
    if not (limit == 0) && shown then print_int (pos limit) ++ b' ' ∷ [] else pbuf

pub shown_key : Bool → Text → Text → Text
shown_key shown key pbuf = if is_set key && shown then pbuf ++ key else pbuf

pub channel_modes : World → ℕ → ℕ → Text → Text × Text
channel_modes w cptr chptr pbuf =
    let ch = w.chan chptr in
    let shown = is_member w cptr chptr || is_server (w.client cptr) in
    (b'+' ∷ mode_letters ch, shown_key shown ch.mode.key (shown_limit shown ch.mode.limit pbuf))

-- The letters with their conditions.
abbrev letters_of : List (Bool × ℕ) → Text
letters_of [] = []
letters_of ((b, letter) ∷ flags) = put_if b letter (letters_of flags)

abbrev among : ℕ → List (Bool × ℕ) → Bool
among x [] = false
among x ((b, letter) ∷ flags) =
    let rest = among x flags in if letter == x then (if b then true else rest) else rest

contains-letters_of :
    (x : ℕ) (flags : List (Bool × ℕ)) → contains x (letters_of flags) ≡ among x flags
unfolding put_if contains
contains-letters_of x [] = refl
contains-letters_of x ((true, letter) ∷ flags) =
    let ih = contains-letters_of x flags in ground arith
contains-letters_of x ((false, letter) ∷ flags) =
    let ih = contains-letters_of x flags in ground arith

alone : (b : Bool) → (if b then true else false) ≡ b
alone true = refl
alone false = refl

abbrev flags_of : Channel → List (Bool × ℕ)
flags_of ch =
    let bits = ch.mode.mode in
    (has bits 16, b's')
    ∷ (has bits 8, b'p')
    ∷ (has bits 16384, b'r')
    ∷ (has bits mode_moderated, b'm')
    ∷ (has bits 64, b't')
    ∷ (has bits mode_inviteonly, b'i')
    ∷ (has bits mode_noprivmsgs, b'n')
    ∷ (not (ch.mode.limit == 0), b'l')
    ∷ (is_set ch.mode.key, b'k')
    ∷ []

-- The text that channel_modes writes shows each mode of the channel, and no other: a flag's
-- letter stands in it exactly if its bit is set, `l` exactly if there is a limit, `k` exactly if
-- there is a key.
pub channel_modes_lem :
    (w : World) (cptr chptr : ℕ) (pbuf : Text)
    → (contains b's' (channel_modes w cptr chptr pbuf).0 ≡ has (w.chan chptr).mode.mode 16)
      × (contains b'p' (channel_modes w cptr chptr pbuf).0 ≡ has (w.chan chptr).mode.mode 8)
      × (contains b'r' (channel_modes w cptr chptr pbuf).0 ≡ has (w.chan chptr).mode.mode 16384)
      × (contains b'm' (channel_modes w cptr chptr pbuf).0 ≡ has (w.chan chptr).mode.mode 32)
      × (contains b't' (channel_modes w cptr chptr pbuf).0 ≡ has (w.chan chptr).mode.mode 64)
      × (contains b'i' (channel_modes w cptr chptr pbuf).0 ≡ has (w.chan chptr).mode.mode 128)
      × (contains b'n' (channel_modes w cptr chptr pbuf).0 ≡ has (w.chan chptr).mode.mode 256)
      × (contains b'l' (channel_modes w cptr chptr pbuf).0 ≡ not ((w.chan chptr).mode.limit == 0))
      × (contains b'k' (channel_modes w cptr chptr pbuf).0 ≡ is_set (w.chan chptr).mode.key)
unfolding channel_modes mode_letters contains
channel_modes_lem w cptr chptr pbuf =
    let flags = flags_of (w.chan chptr) in
    (
      contains-letters_of b's' flags ∙ alone _,
      contains-letters_of b'p' flags ∙ alone _,
      contains-letters_of b'r' flags ∙ alone _,
      contains-letters_of b'm' flags ∙ alone _,
      contains-letters_of b't' flags ∙ alone _,
      contains-letters_of b'i' flags ∙ alone _,
      contains-letters_of b'n' flags ∙ alone _,
      contains-letters_of b'l' flags ∙ alone _,
      contains-letters_of b'k' flags ∙ alone _,
    )

-- Who is neither a member of the channel nor a server is shown no limit and no key.
pub channel_modes-hidden :
    (w : World) (cptr chptr : ℕ) (pbuf : Text)
    → is_member w cptr chptr ≡ false
    → is_server (w.client cptr) ≡ false
    → (channel_modes w cptr chptr pbuf).1 ≡ pbuf
unfolding channel_modes shown_limit shown_key
channel_modes-hidden w cptr chptr pbuf m s = ground (arith, m, s)
