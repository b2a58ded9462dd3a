-- ===== src/Mask/Compare.antt =====
-- `irccmp` of src/match.c: the order of two texts without regard to case.
pub mod Laws
mod Tests
use igniteircd.Prelude.{ℕ, Bool, [], ◌∷◌, Text, ◌==◌, if◌then◌else◌, ℤ, sub_ℕ, is_zero}
use igniteircd.Chars.Tables.{to_upper}

-- `ToUpper(*str1) - ToUpper(*str2)`
abbrev pub difference : ℕ → ℕ → ℤ
difference c d = sub_ℕ (to_upper c) (to_upper d)

-- At the end of one text its NUL is compared. The upper case form of a character is not 0, so
-- no pointer moves past a NUL.
unfoldable pub irccmp : Text → Text → ℤ
irccmp [] [] = difference 0 0
irccmp [] (d ∷ _) = difference 0 d
irccmp (c ∷ _) [] = difference c 0
irccmp (c ∷ s1) (d ∷ s2) = if is_zero (difference c d) then irccmp s1 s2 else difference c d

-- `irccmp(s1, s2) == 0`, as the callers ask.
unfoldable pub same_name : Text → Text → Bool
unfolding irccmp
same_name s1 s2 = is_zero (irccmp s1 s2)
