-- ===== src/Channel/Modes/Text.antt =====
-- The texts of set_channel_mode in src/channel.c: pretty_mask, fix_key, fix_key_old and
-- collapse_signs. A character is its byte.
pub mod Laws
use igniteircd.Prelude.{
  ℕ, ◌%◌, Bool, true, false, not, ◌&&◌, ◌||◌, Option, none, some, List, [], ◌∷◌, Text, ltb, ◌==◌,
  if◌then◌else◌,
}
use igniteircd.Channel.Names.{check_string, make_nick_user_host}

-- The text before the first `c` and the one after it, as strchr finds it.
pub split_first : ℕ → Text → Option (Text × Text)
split_first c [] = none
split_first c (d ∷ s) =
    let rest = split_first c s in
    if d == c
    then some ([], s)
    else elim rest [ none ↦ none | some (before, behind) ↦ some (d ∷ before, behind) ]

-- The same at the last `c`, as strrchr finds it.
pub split_last : ℕ → Text → Option (Text × Text)
split_last c [] = none
split_last c (d ∷ s) = elim (split_last c s) [
  | some (before, behind) ↦ some (d ∷ before, behind)
  | none ↦ if d == c then some ([], s) else none
]

unfoldable pub contains : ℕ → Text → Bool
contains c [] = false
contains c (d ∷ s) = if d == c then true else contains c s

abbrev star : Text
star = b'*' ∷ []

-- A mask without `!`.
pub pretty_bare : Text → Option (Text × Text) → Text
pretty_bare cp (some (user, host)) =
    make_nick_user_host star (check_string (some user)) (check_string (some host))
pretty_bare cp none =
    if contains b'.' cp
    then make_nick_user_host star star (check_string (some cp))
    else make_nick_user_host (check_string (some cp)) (check_string none) (check_string none)

-- A mask with `!` between `nick` and `user`.
pub pretty_user : Text → Text → Option (Text × Text) → Text
pretty_user nick user none =
    make_nick_user_host (check_string (some nick)) (check_string (some user)) (check_string none)
pretty_user nick user (some (name, host)) =
    make_nick_user_host (check_string (some nick)) (check_string (some name))
      (check_string (some host))

-- By what strchr finds.
pub pretty_split : Text → Option (Text × Text) → Text
pretty_split mask (some (nick, user)) = pretty_user nick user (split_last b'@' user)
pretty_split mask none = pretty_bare mask (split_last b'@' mask)

pub pretty_mask : Text → Text
pretty_mask mask = pretty_split mask (split_first b'!' mask)

-- `c &= 0x7f`
abbrev low7 : ℕ → ℕ
low7 c = c % 128

unfoldable pub fix_key : Text → Text
fix_key [] = []
fix_key (c ∷ s) =
    let rest = fix_key s in
    if not (low7 c == b':') && ltb b' ' (low7 c) then low7 c ∷ rest else rest

-- The byte 0x80 becomes the NUL that ends the text.
pub fix_key_old : Text → Text
fix_key_old [] = []
fix_key_old (c ∷ s) =
    let rest = fix_key_old s in
    if low7 c == 10
    then rest
    else if low7 c == b':'
    then rest
    else if low7 c == 0
    then []
    else low7 c ∷ rest

abbrev pub is_sign : ℕ → Bool
is_sign c = c == b'+' || c == b'-'

-- The loop, with the sign that `plus` holds; 0 before the first one.
unfoldable pub collapse_from : ℕ → Text → Text
collapse_from plus [] = []
collapse_from plus (c ∷ s) =
    let same = collapse_from plus s in
    let next = collapse_from c s in
    let kept = if is_sign c then next else same in if c == plus then kept else c ∷ kept

unfoldable pub collapse_signs : Text → Text
collapse_signs s = collapse_from 0 s
