-- ===== src/Mask/Match/Decide.antt =====
-- `match` of src/match.c answers by `Matches`, as long as its counter of rounds lasts.
use igniteircd.Prelude.{
  ℕ, ◌+◌, ◌*◌, ◌<◌, ◌≡◌, refl, ◌↔◌, ◌≢◌, inl, true, false, Text, length, All, arith,
}
use igniteircd.Chars.Tables.{IsChar}
use igniteircd.Mask.Spec.{Matches}
use igniteircd.Mask.Match.{
  Outcome, returned, ran_over, gave_up, match_loop, match_max_calls, start, result, match,
}
use igniteircd.Mask.Match.Run.{here}
use igniteircd.Mask.Match.Invariant.{Inv}
use igniteircd.Mask.Match.Round.{Answers, match_loop-Answers}

start-Inv : (mask name : Text) → All IsChar name → Inv (Matches mask name) mask (start mask name)
unfolding start
start-Inv mask name h = record {
  saved = inl (refl, (λ x. x, λ x. x), here);
  chars = h;
  short = omega arith;
}

-- The rounds that a mask and a name may need.
abbrev pub rounds_needed : Text → Text → ℕ
rounds_needed mask name = length name * (length mask + 1) + length mask

abbrev pub outcome : Text → Text → Outcome
outcome mask name = match_loop match_max_calls (start mask name)

pub outcome-Answers :
    (mask name : Text)
    → All IsChar name
    → Answers (Matches mask name) mask match_max_calls (rounds_needed mask name) (outcome mask name)
unfolding start
outcome-Answers mask name h =
    match_loop-Answers (Matches mask name) mask match_max_calls (start mask name)
      (start-Inv mask name h)

sound_of :
    {G : Type 0} (mask : Text) (c k : ℕ) (o : Outcome) → Answers G mask c k o → result o ≡ true → G
unfolding result
sound_of mask c k (returned true) a e = a
sound_of mask c k (returned false) a e = cc
sound_of mask c k ran_over a e = cc
sound_of mask c k gave_up a e = cc

complete_of :
    {G : Type 0} (mask : Text) (c k : ℕ) (o : Outcome)
    → Answers G mask c k o
    → k < c
    → G
    → result o ≡ true
unfolding result
complete_of mask c k (returned true) a h g = refl
complete_of mask c k (returned false) a h g = absurd (a g)
complete_of mask c k ran_over a h g = elim a [ ]
complete_of mask c k gave_up a h g = absurd (omega arith)

-- A name that `match` accepts matches the mask, however long the two are: a counter that runs
-- out makes the answer no. The name holds bytes and no NUL.
pub match-sound : (mask name : Text) → All IsChar name → match mask name ≡ true → Matches mask name
unfolding match
match-sound mask name h e = sound_of mask _ _ (outcome mask name) (outcome-Answers mask name h) e

-- `match` accepts exactly the names that match the mask, if the rounds that the two may need
-- are fewer than MATCH_MAX_CALLS. The name holds bytes and no NUL.
pub match_iff :
    (mask name : Text)
    → All IsChar name
    → rounds_needed mask name < match_max_calls
    → (match mask name ≡ true) ↔ Matches mask name
unfolding match
match_iff mask name h k = (
  match-sound mask name h,
  complete_of mask match_max_calls _ (outcome mask name) (outcome-Answers mask name h) k,
)

not-ran_over_of :
    (G : Type 0) (mask : Text) (c k : ℕ) (o : Outcome) → Answers G mask c k o → o ≢ ran_over
not-ran_over_of G mask c k (returned true) a = λ e. cc
not-ran_over_of G mask c k (returned false) a = λ e. cc
not-ran_over_of G mask c k ran_over a = elim a [ ]
not-ran_over_of G mask c k gave_up a = λ e. cc

-- The pointer `na`, which is advanced with no test of its own, never passes the end of the
-- name, whatever the mask. The name holds bytes and no NUL.
pub outcome-ne-ran_over : (mask name : Text) → All IsChar name → outcome mask name ≢ ran_over
outcome-ne-ran_over mask name h =
    not-ran_over_of _ mask _ _ (outcome mask name) (outcome-Answers mask name h)
