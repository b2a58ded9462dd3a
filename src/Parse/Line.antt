-- ===== src/Parse/Line.antt =====
-- The parts of a line in `parse` of src/parse.c: prefix, command, parameters. The text is what
-- stands in `pbuffer` before its NUL; a part ends at a space, where the code writes a NUL.
pub mod Split
pub mod Words
use igniteircd.Prelude.{
  ℕ, zero, suc, ◌-◌, Bool, true, false, not, ◌&&◌, Option, none, some, List, [], ◌∷◌, Text, take,
  drop, get_or, ltb, ◌==◌, if◌then◌else◌,
}
use igniteircd.Chars.Tables.{is_digit, is_non_eos}

abbrev pub maxpara : ℕ
maxpara = 15

-- `sizeof(sender) - 1`
abbrev pub sender_size : ℕ
sender_size = 63

-- `while (*s == ' ') s++;`
pub skip_spaces : Text → Text
skip_spaces [] = []
skip_spaces (c ∷ s) = if c == b' ' then skip_spaces s else c ∷ s

-- The characters up to a space, and the rest from it on.
pub word : Text → Text × Text
word [] = ([], [])
word (c ∷ s) = let (w, left) = word s in if c == b' ' then ([], c ∷ s) else (c ∷ w, left)

-- `while (IsNonEOS(*s)) s++;`
pub non_eos : Text → Text × Text
non_eos [] = ([], [])
non_eos (c ∷ s) = let (w, left) = non_eos s in if is_non_eos c then (c ∷ w, left) else ([], c ∷ s)

-- What stands in `sender`, and the line behind the prefix. A line without a colon has none.
pub split_prefix : Text → Option Text × Text
split_prefix [] = (none, [])
split_prefix (c ∷ ch) =
    let (sender, left) = word ch in
    if c == b':' then (some (take sender_size sender), skip_spaces left) else (none, c ∷ ch)

pub prefix_of : Text → Option Text × Text
prefix_of pbuffer = split_prefix (skip_spaces pbuffer)

-- A space as fourth character behind three digits. What stands behind the NUL of a shorter text
-- makes no difference, as the NUL is no digit.
pub is_numeric : Text → Bool
is_numeric ch =
    (get_or ch 3 0 == b' ')
    && is_digit (get_or ch 0 0)
    && is_digit (get_or ch 1 0)
    && is_digit (get_or ch 2 0)

-- `s = strchr(ch, ' '); if (s) *s++ = '\0';`, where `none` is a NULL in `s`.
pub behind_space : Text → Option Text
behind_space [] = none
behind_space (c ∷ s) = some s

pub split_command : Text → Text × Option Text
split_command ch = let (cmd, left) = word ch in (cmd, behind_space left)

-- The rest behind a colon is one parameter, also if it is empty.
pub last_param : Text → List Text
last_param [] = []
last_param (c ∷ s) = if c == b':' then s ∷ [] else (c ∷ s) ∷ []

-- A round of the loop, where `i + k` is paramcount; `next` is the rest of the loop.
pub next_param : ℕ → (Text → List Text) → Text → List Text
next_param k next [] = []
next_param k next (c ∷ s) =
    let (w, left) = non_eos (c ∷ s) in
    let later = next left in
    if c == b':' then s ∷ [] else if k == 0 then (c ∷ s) ∷ [] else w ∷ later

-- The loop with `para[i++]` for the rounds, from `i = paramcount - k` on.
pub split_params : ℕ → Text → List Text
split_params zero s = last_param (skip_spaces s)
split_params (suc k) s = next_param k (split_params k) (skip_spaces s)

-- `if (paramcount > MAXPARA) paramcount = MAXPARA;` and the loop from i = 1 on, with no
-- parameters where `s` is NULL.
pub params : ℕ → Option Text → List Text
params paramcount none = []
params paramcount (some s) =
    split_params ((if ltb maxpara paramcount then maxpara else paramcount) - 1) s
