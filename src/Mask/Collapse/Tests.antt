-- ===== src/Mask/Collapse/Tests.antt =====
-- `collapse` of src/match.c on a sample mask.
use igniteircd.Prelude.{◌≡◌, refl, codes}
use igniteircd.Mask.Collapse.{collapse}

runs_of_stars : collapse (codes "**a*?***b*") ≡ codes "*a*?*b*"
unfolding collapse
runs_of_stars = refl
