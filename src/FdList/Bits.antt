-- ===== src/FdList/Bits.antt =====
-- The bit FDL_BUSY of src/fdlist.c in an unsigned char.
use igniteircd.Prelude.{
  ℕ, ◌-◌, ◌<◌, ◌≡◌, refl, Bool, true, false, not, ltb, ◌==◌, bit_and, arith, right_table,
  right_table_at, ==_iff,
}
use mathlib.Core.Bool.{false≢true}
use igniteircd.FdList.{fdl_busy, mark}

-- `GlobalFDList[i] & FDL_BUSY`
abbrev pub is_busy : ℕ → Bool
is_busy flags = not (bit_and flags fdl_busy == 0)

-- The other bits.
abbrev pub others : ℕ → ℕ
others flags = bit_and flags (255 - fdl_busy)

abbrev same_bool : Bool → Bool → Bool
same_bool true b = b
same_bool false b = not b

same_bool-eq : (a b : Bool) → same_bool a b ≡ true → a ≡ b
same_bool-eq true true e = refl
same_bool-eq false false e = refl
same_bool-eq true false e = absurd (false≢true e)
same_bool-eq false true e = absurd (false≢true e)

abbrev small : Bool → ℕ → Bool
small busy flags = ltb (mark busy flags) 256

abbrev set_right : Bool → ℕ → Bool
set_right busy flags = same_bool (is_busy (mark busy flags)) busy

abbrev others_right : Bool → ℕ → Bool
others_right busy flags = others (mark busy flags) == others flags

small_table : (busy : Bool) → right_table 256 (small busy) ≡ true
unfolding right_table mark
small_table true = refl
small_table false = refl

set_table : (busy : Bool) → right_table 256 (set_right busy) ≡ true
unfolding right_table mark
set_table true = refl
set_table false = refl

others_table : (busy : Bool) → right_table 256 (others_right busy) ≡ true
unfolding right_table mark
others_table true = refl
others_table false = refl

-- Marking a descriptor sets the bit as told, and no other.
pub mark_lem :
    (busy : Bool) (flags : ℕ)
    → flags < 256
    → (mark busy flags < 256)
      × (is_busy (mark busy flags) ≡ busy)
      × (others (mark busy flags) ≡ others flags)
mark_lem busy flags h =
    let below = right_table_at 256 (small busy) flags (small_table busy) h in
    let bit = right_table_at 256 (set_right busy) flags (set_table busy) h in
    let rest = right_table_at 256 (others_right busy) flags (others_table busy) h in
    (
      ground (arith, below),
      same_bool-eq (is_busy (mark busy flags)) busy bit,
      (==_iff (others (mark busy flags)) (others flags)).0 rest,
    )
