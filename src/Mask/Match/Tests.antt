-- ===== src/Mask/Match/Tests.antt =====
-- `match` of src/match.c on sample masks.
use igniteircd.Prelude.{◌≡◌, refl, ◌≢◌, ◌↔◌, true, false, codes, arith}
use igniteircd.Mask.Spec.{Matches}
use igniteircd.Mask.Match.{match, ran_over}
use igniteircd.Mask.Match.Decide.{match-sound, match_iff, outcome, outcome-ne-ran_over}

any_then_star : match (codes "n?ck*!*@*.Org") (codes "Nick_!u@irc.ORG") ≡ true
unfolding match
any_then_star = refl

not_the_whole_name : match (codes "*ab") (codes "aba") ≡ false
unfolding match
not_the_whole_name = refl

match-sound_example : Matches (codes "*!u?@*") (codes "a!ub@c")
unfolding match
match-sound_example = match-sound (codes "*!u?@*") (codes "a!ub@c") (omega arith) refl

match_iff_example : (match (codes "*ab") (codes "aab") ≡ true) ↔ Matches (codes "*ab") (codes "aab")
match_iff_example = match_iff (codes "*ab") (codes "aab") (omega arith) (omega arith)

outcome-ne-ran_over_example : outcome (codes "*?b") (codes "ab") ≢ ran_over
outcome-ne-ran_over_example = outcome-ne-ran_over (codes "*?b") (codes "ab") (omega arith)
