-- ===== src/Channel/Names/Laws.antt =====
-- What the texts of src/channel.c hold, and that they fit.
use igniteircd.Prelude.{
  ℕ, zero, suc, ◌+◌, ◌≤◌, ◌≡◌, refl, sym, ap, ◌∙◌, ◌↔◌, inl, inr, true, false, not, some, [], ◌∷◌,
  ◌++◌, Text, length, take, All, Bool-cases, arith, length-append,
}
use mathlib.Core.Bool.{false≢true}
use igniteircd.Chars.Tables.{IsChar, is_chan_char}
use igniteircd.Chars.Folding.{is_chan_char_lem, not_in_channel_names}
use igniteircd.Channel.Names.{
  before_space, is_space, check_string, check_channel_name, make_nick_user_host, nicklen, userlen,
  hostlen,
}

-- A name is accepted exactly if it holds no ^G, no space and no comma. It holds bytes and no
-- NUL.
pub check_channel_name_iff :
    (name : Text)
    → All IsChar name
    → (check_channel_name name ≡ true) ↔ All (λ c. not_in_channel_names c ≡ false) name
unfolding check_channel_name
check_channel_name_iff [] h = (λ e. tt, λ a. refl)
check_channel_name_iff (c ∷ name) h =
    let (there, back) = check_channel_name_iff name h.1 in
    let same = is_chan_char_lem c h.0.1 in
    elim (Bool-cases (not_in_channel_names c)) [
      | inl t ↦
          let bad : is_chan_char c ≡ false = same ∙ ap not t in
          rw bad (λ e. absurd (false≢true e), λ a. absurd (false≢true (sym a.0 ∙ t)))
      | inr f ↦
          let good : is_chan_char c ≡ true = same ∙ ap not f in
          rw good (λ e. (f, there e), λ a. back a.1)
    ]

pub length-take_le : (n : ℕ) (s : Text) → length (take n s) ≤ n
length-take_le zero s = omega arith
length-take_le (suc n) [] = omega arith
length-take_le (suc n) (c ∷ s) = omega (arith, length-take_le n s)

-- The text nick!user@host, with its NUL, fits in the buffers of NICKLEN + USERLEN + HOSTLEN + 6
-- characters, whatever the lengths of its parts.
pub make_nick_user_host-bounds :
    (nick name host : Text)
    → length (make_nick_user_host nick name host) + 1 ≤ nicklen + userlen + hostlen + 6
unfolding make_nick_user_host
make_nick_user_host-bounds nick name host = omega (
  arith,
  length-append (take nicklen nick ++ b'!' ∷ take userlen name) (b'@' ∷ take hostlen host),
  length-append (take nicklen nick) (b'!' ∷ take userlen name),
  length-take_le nicklen nick,
  length-take_le userlen name,
  length-take_le hostlen host,
)

before_space-same : (s : Text) → All (λ c. is_space c ≡ false) s → before_space s ≡ s
unfolding before_space
before_space-same [] h = refl
before_space-same (c ∷ s) (h, hs) = rw h (ap (◌∷◌ c) (before_space-same s hs))

-- A parameter with a character and without spaces is taken whole.
pub check_string-same :
    (s : Text) → 1 ≤ length s → All (λ c. is_space c ≡ false) s → check_string (some s) ≡ s
unfolding check_string
check_string-same [] n h = absurd (omega arith)
check_string-same (c ∷ s) n h = before_space-same (c ∷ s) h
