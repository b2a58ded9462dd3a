-- ===== src/Mask/Collapse.antt =====
-- `collapse` of src/match.c, which rewrites a mask in place.
pub mod Laws
mod Tests
use igniteircd.Prelude.{ℕ, zero, suc, [], ◌∷◌, Text, length, if◌then◌else◌}
use igniteircd.Mask.Spec.{is_star}

-- `while ('*' == *t) ++t;` from the character behind a star; what stands between is cut out.
pub drop_stars : Text → Text
drop_stars [] = []
drop_stars (c ∷ t) = if is_star c then drop_stars t else c ∷ t

-- `for (; *s; s++)`. Each round leaves a shorter text behind `s`.
pub collapse_loop : ℕ → Text → Text
collapse_loop fuel [] = []
collapse_loop zero (c ∷ s) = c ∷ s
collapse_loop (suc fuel) (c ∷ s) = c ∷ collapse_loop fuel (if is_star c then drop_stars s else s)

unfoldable pub collapse : Text → Text
unfolding collapse_loop drop_stars
collapse pattern = collapse_loop (length pattern) pattern
