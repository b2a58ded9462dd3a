-- ===== src/Channel/Names.antt =====
-- The texts that src/channel.c makes and tests: check_string, make_nick_user_host,
-- check_channel_name.
pub mod Laws
use igniteircd.Prelude.{
  ℕ, ◌≤◌, ◌≡◌, refl, ◌↔◌, Bool, true, false, ◌&&◌, Option, none, some, List, [], ◌∷◌, ◌++◌, Text,
  take, All, if◌then◌else◌, codes, Bool-cases, arith, bit_and, get_or, not, ◌==◌,
}
use igniteircd.Chars.Tables.{has_class, is_chan_char}
use igniteircd.Channel.{Client}

abbrev pub nicklen : ℕ
nicklen = 30

abbrev pub userlen : ℕ
userlen = 10

abbrev pub hostlen : ℕ
hostlen = 63

unfoldable pub is_space : ℕ → Bool
is_space c = has_class 0x020 c

pub before_space : Text → Text
before_space [] = []
before_space (c ∷ s) = let rest = before_space s in if is_space c then [] else c ∷ rest

-- The argument is a pointer that may be NULL.
pub check_string : Option Text → Text
check_string none = b'*' ∷ []
check_string (some []) = b'*' ∷ []
check_string (some (c ∷ s)) = before_space (c ∷ s)

unfoldable pub make_nick_user_host : Text → Text → Text → Text
make_nick_user_host nick name host =
    take nicklen nick ++ b'!' ∷ take userlen name ++ b'@' ∷ take hostlen host

pub check_channel_name : Text → Bool
check_channel_name [] = true
check_channel_name (c ∷ name) =
    let rest = check_channel_name name in if is_chan_char c then rest else false
