-- ===== src/Strings.antt =====
-- The string functions of src/irc_string.c that copy, clean and split texts.
pub mod Clean
pub mod Tokens
mod Tests
use igniteircd.Prelude.{
  ℕ, zero, suc, ◌+◌, ◌-◌, ◌/◌, ◌%◌, Bool, true, false, not, ◌||◌, Option, none, some, List, [], ◌∷◌,
  ◌++◌, Text, leb, ltb, ◌==◌, if◌then◌else◌,
}

-- The bytes written to `s1`: the NUL too, while there is room.
pub strncpy_irc : Text → ℕ → Text
strncpy_irc s2 zero = []
strncpy_irc [] (suc n) = 0 ∷ []
strncpy_irc (c ∷ s2) (suc n) = c ∷ strncpy_irc s2 n

-- `"\\%d"` of a byte above '~', which has three digits.
pub escape : ℕ → Text
escape c = b'\\' ∷ (b'0' + c / 100) ∷ (b'0' + (c / 10) % 10) ∷ (b'0' + c % 10) ∷ []

-- The loop, with `room` for `endp - d`.
pub clean_chars : ℕ → Text → Text
clean_chars room [] = []
clean_chars zero (c ∷ src) = []
clean_chars (suc room) (c ∷ src) =
    let caret = clean_chars (room - 1) src in
    let same = clean_chars (suc room) src in
    let escaped = clean_chars (suc room - 4) src in
    let plain = clean_chars room src in
    if ltb c b' '
    then b'^' ∷ (if ltb 0 room then (0x40 + c) ∷ caret else [])
    else if ltb b'~' c
    then (if ltb 4 (suc room) then escape c ++ escaped else same)
    else c ∷ plain

-- `len` is at least 1.
pub clean_string : Text → ℕ → Text
clean_string src len = clean_chars (len - 1) src

-- `strchr(fs, c) != NULL` for a character that is not the NUL.
pub is_sep : Text → ℕ → Bool
is_sep [] c = false
is_sep (f ∷ fs) c = (f == c) || is_sep fs c

pub skip_seps : Text → Text → Text
skip_seps fs [] = []
skip_seps fs (c ∷ pos) = let left = skip_seps fs pos in if is_sep fs c then left else c ∷ pos

-- The characters of the token, and what is left from the separator behind it on.
pub token : Text → Text → Text × Text
token fs [] = ([], [])
token fs (c ∷ pos) =
    let (t, left) = token fs pos in if is_sep fs c then ([], c ∷ pos) else (c ∷ t, left)

-- `if (*pos) *pos++ = '\0'; else pos = NULL;`
pub behind_sep : Text → Option Text
behind_sep [] = none
behind_sep (c ∷ pos) = some pos

pub found_token : Text → Text → Option Text × Option Text
found_token fs [] = (none, none)
found_token fs (c ∷ pos) = let (t, left) = token fs (c ∷ pos) in (some t, behind_sep left)

-- A string in `str` starts a new scan.
pub start_of : Option Text → Option Text → Option Text
start_of save none = save
start_of save (some str) = some str

pub scan_from : Text → Option Text → Option Text × Option Text
scan_from fs none = (none, none)
scan_from fs (some pos) = found_token fs (skip_seps fs pos)

-- The token, and `*save` afterwards.
pub strtoken : Option Text → Option Text → Text → Option Text × Option Text
strtoken save str fs = scan_from fs (start_of save str)
