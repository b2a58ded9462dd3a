-- ===== src/Channel/Modes/Number.antt =====
-- The case 'd' of vsprintf_irc in src/sprintf_irc.c, on an `int` other than the least one. An
-- entry of `atoi_tab` is the three digits of its index.
pub mod Laws
use igniteircd.Prelude.{
  ℕ, zero, suc, ◌+◌, ◌*◌, ◌/◌, ◌%◌, ◌<◌, ◌≤◌, ◌≡◌, refl, sym, ap, ◌∙◌, ℤ, pos, negsuc, Bool, List,
  [], ◌∷◌, ◌++◌, Text, ◌==◌, if◌then◌else◌, arith,
}

pub atoi_tab : ℕ → Text
atoi_tab v = (48 + v / 100) ∷ (48 + v / 10 % 10) ∷ (48 + v % 10) ∷ []

-- The rounds of the loop, which writes from the right; four are enough for 32 bits.
pub groups : ℕ → ℕ → Text → Text
groups zero v1 written = written
groups (suc fuel) v1 written =
    let v2 = v1 / 1000 in
    let text = atoi_tab (v1 % 1000) ++ written in
    let rest = groups fuel v2 text in if v2 == 0 then text else rest

-- `while ('0' == *++s);`
pub skip_zeros : Text → Text
skip_zeros [] = []
skip_zeros (c ∷ s) = let rest = skip_zeros s in if c == b'0' then rest else c ∷ s

pub print_int : ℤ → Text
print_int (pos zero) = b'0' ∷ []
print_int (pos (suc n)) = skip_zeros (groups 4 (suc n) [])
print_int (negsuc n) = b'-' ∷ skip_zeros (groups 4 (n + 1) [])
