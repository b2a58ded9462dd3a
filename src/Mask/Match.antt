-- ===== src/Mask/Match.antt =====
-- `match` of src/match.c. A pointer into the mask is the pair of the characters before it,
-- nearest first, and those from it on; a pointer into the name is the characters from it on.
-- `overrun` is a pointer moved past the NUL of the name, which the C code would then read.
mod Run
mod Round
mod Invariant
pub mod Decide
mod Tests
use igniteircd.Prelude.{
  ℕ, zero, suc, ◌≡◌, Bool, true, false, not, ◌&&◌, List, [], ◌∷◌, Text, ◌==◌, if◌then◌else◌,
}
use igniteircd.Chars.Tables.{to_lower}
use igniteircd.Mask.Spec.{is_star, is_any}

pub record State : Type 0 where
  pub before : Text
  pub m : Text
  pub n : Text
  pub ma_before : Text
  pub ma : Text
  pub na : Text
  pub wild : Bool

pub data Verdict : Type 0 where
  stop : Bool → Verdict
  go : State → Verdict
  overrun : Verdict

-- `*p`, which is 0 at the end of the text.
abbrev pub char_at : Text → ℕ
char_at [] = 0
char_at (c ∷ _) = c

-- `if (*p) p++`
abbrev pub next : Text → Text
next [] = []
next (_ ∷ p) = p

-- The characters before a pointer once it has taken that step.
abbrev pub passed : Text → Text → Text
passed before [] = before
passed before (c ∷ _) = c ∷ before

-- `while (*m == '*') m++;`
pub skip_stars : Text → Text → Text × Text
skip_stars before [] = (before, [])
skip_stars before (c ∷ m) = if is_star c then skip_stars (c ∷ before) m else (before, c ∷ m)

pub enter_star : State → State
enter_star s =
    let skipped = skip_stars s.before s.m in
    if is_star (char_at s.m)
    then record s {
      before = skipped.0;
      m = skipped.1;
      wild = true;
      ma_before = skipped.0;
      ma = skipped.1;
      na = s.n;
    }
    else s

-- `for (m--; m > mask && *m == '?'; m--);` and the test for a star behind it that is not the
-- first character of the mask. The last character is at the head.
pub ends_in_star : Text → Bool
ends_in_star [] = false
ends_in_star (c ∷ []) = false
ends_in_star (c ∷ e ∷ before) = if is_any c then ends_in_star (e ∷ before) else is_star c

-- `m = ma; n = ++na;`
pub restart : State → Verdict
restart s = elim s.na [
  | [] ↦ overrun
  | d ∷ rest ↦ go (record s { before = s.ma_before; m = s.ma; n = rest; na = rest })
]

pub step_back : State → Verdict
step_back s = if s.wild then restart s else stop false

-- The last test of a round.
pub compare_chars : State → Verdict
compare_chars s =
    if not (to_lower (char_at s.m) == to_lower (char_at s.n)) && not (is_any (char_at s.m))
    then step_back s
    else go (record s { before = passed s.before s.m; m = next s.m; n = next s.n })

pub and_then : Verdict → (State → Verdict) → Verdict
and_then (stop b) f = stop b
and_then (go s) f = f s
and_then overrun f = overrun

pub is_empty : Text → Bool
is_empty [] = true
is_empty (_ ∷ _) = false

pub at_ends : Text → Text → State → Verdict
at_ends [] [] s = stop true
at_ends [] (_ ∷ _) s =
    if ends_in_star s.before then stop true else and_then (step_back s) compare_chars
at_ends (c ∷ m) [] s = stop (is_empty (skip_stars s.before (c ∷ m)).1)
at_ends (_ ∷ _) (_ ∷ _) s = compare_chars s

pub round : State → Verdict
round s = let t = enter_star s in at_ends t.m t.n t

-- How the loop ended: with a `return` inside it, past the end of the name, or by its counter.
pub data Outcome : Type 0 where
  returned : Bool → Outcome
  ran_over : Outcome
  gave_up : Outcome

-- `while (calls++ < MATCH_MAX_CALLS)`
pub match_loop : ℕ → State → Outcome
match_loop zero s = gave_up
match_loop (suc calls) s = elim (round s) [
  | stop b ↦ returned b
  | go t ↦ match_loop calls t
  | overrun ↦ ran_over
]

abbrev pub match_max_calls : ℕ
match_max_calls = 512

pub start : Text → Text → State
start mask name = record {
  before = [];
  m = mask;
  n = name;
  ma_before = [];
  ma = mask;
  na = name;
  wild = false;
}

-- `return 0` stands behind the loop.
pub result : Outcome → Bool
result (returned b) = b
result ran_over = false
result gave_up = false

unfoldable pub match : Text → Text → Bool
unfolding match_loop start result round at_ends and_then compare_chars step_back restart
    ends_in_star enter_star skip_stars is_empty to_lower
match mask name = result (match_loop match_max_calls (start mask name))
