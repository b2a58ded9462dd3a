-- ===== src/Mask/Compare/Tests.antt =====
-- `irccmp` of src/match.c on sample names.
use igniteircd.Prelude.{◌≡◌, refl, true, codes, negsuc}
use igniteircd.Chars.Tables.{to_upper}
use igniteircd.Mask.Compare.{irccmp, same_name}

case_of_brackets : same_name (codes "Nick[]^") (codes "nICK{}~") ≡ true
unfolding same_name to_upper
case_of_brackets = refl

shorter_first : irccmp (codes "ab") (codes "ABc") ≡ negsuc 66
unfolding irccmp to_upper
shorter_first = refl
