-- ===== src/Mask/Compare/Laws.antt =====
-- `irccmp` of src/match.c is an order on names up to case.
use igniteircd.Prelude.{
  ℕ, ◌<◌, ◌≡◌, refl, sym, ◌∙◌, ◌↔◌, inl, inr, ◌||◌, Bool, true, false, not, [], ◌∷◌, Text, map, All,
  ◌==◌, arith, Bool-cases, right_table, right_table_at, ℤ, neg, sub_ℕ, is_zero,
}
use mathlib.Core.Path.{ap₂}
use mathlib.Core.Bool.{false≢true}
use igniteircd.Chars.Tables.{to_upper, IsChar}
use igniteircd.Mask.Compare.{difference, irccmp, same_name}

to_upper-pos_table : right_table 256 (λ c. c == 0 || not (is_zero (difference 0 c))) ≡ true
unfolding right_table to_upper
to_upper-pos_table = refl

false_of_pos : (c : ℕ) (b : Bool) → (c == 0 || not b) ≡ true → 0 < c → b ≡ false
false_of_pos c b h p = ground arith

pub to_upper-pos : (c : ℕ) → IsChar c → is_zero (difference 0 c) ≡ false
to_upper-pos c (p, q) = false_of_pos c _ (right_table_at 256 _ c to_upper-pos_table q) p

-- The two texts are one text when every character is put in its upper case form.
abbrev pub SameFolding : Text → Text → Type 0
SameFolding s t = map to_upper s ≡ map to_upper t

sub_ℕ-neg : (a b : ℕ) → sub_ℕ b a ≡ neg (sub_ℕ a b)
sub_ℕ-neg a b = ground arith

is_zero-sub_ℕ : (a b : ℕ) → (is_zero (sub_ℕ a b) ≡ true) ↔ (a ≡ b)
is_zero-sub_ℕ a b = ground arith

is_zero-swap : (a b : ℕ) → is_zero (sub_ℕ a b) ≡ is_zero (sub_ℕ b a)
is_zero-swap a b = ground arith

is_zero-neg : (z : ℤ) → is_zero (neg z) ≡ is_zero z
is_zero-neg z = ground arith

pub folded_tails : {a b : ℕ} {s t : Text} → ◌≡◌ {A = Text} (a ∷ s) (b ∷ t) → s ≡ t
folded_tails q = cc

pub folded_heads : {a b : ℕ} {s t : Text} → ◌≡◌ {A = Text} (a ∷ s) (b ∷ t) → a ≡ b
folded_heads q = cc

-- Two names compare as equal exactly when they are one name up to the case of their letters.
-- The names hold bytes and no NUL.
pub same_name_iff :
    (s t : Text) → All IsChar s → All IsChar t → (same_name s t ≡ true) ↔ SameFolding s t
unfolding same_name irccmp
same_name_iff [] [] hs ht = (λ _. refl, λ _. ground arith)
same_name_iff [] (d ∷ t) hs ht = rw (to_upper-pos d ht.0) (λ e. cc, λ e. cc)
same_name_iff (c ∷ s) [] hs ht =
    rw (is_zero-swap (to_upper c) (to_upper 0), to_upper-pos c hs.0) (λ e. cc, λ e. cc)
same_name_iff (c ∷ s) (d ∷ t) hs ht =
    let (there, back) = same_name_iff s t hs.1 ht.1 in
    let (heads, zero) = is_zero-sub_ℕ (to_upper c) (to_upper d) in
    elim (Bool-cases (is_zero (difference c d))) [
      | inl e ↦ rw e (λ h. ap₂ ◌∷◌ (heads e) (there h), λ q. back (folded_tails q))
      | inr e ↦ rw (e, e) (λ h. cc, λ q. absurd (false≢true (sym e ∙ zero (folded_heads q))))
    ]

-- Swapping the texts turns the sign of the result, so `irccmp` is an order that a sort can use.
pub irccmp-swap : (s t : Text) → irccmp t s ≡ neg (irccmp s t)
unfolding irccmp
irccmp-swap [] [] = sub_ℕ-neg (to_upper 0) (to_upper 0)
irccmp-swap [] (d ∷ t) = sub_ℕ-neg (to_upper 0) (to_upper d)
irccmp-swap (c ∷ s) [] = sub_ℕ-neg (to_upper c) (to_upper 0)
irccmp-swap (c ∷ s) (d ∷ t) =
    rw (is_zero-swap (to_upper d) (to_upper c)) (elim (Bool-cases (is_zero (difference c d))) [
      | inl e ↦ rw e (irccmp-swap s t)
      | inr e ↦ rw e (sub_ℕ-neg (to_upper c) (to_upper d))
    ])

pub same_name_refl : (s : Text) → same_name s s ≡ true
unfolding same_name irccmp to_upper
same_name_refl [] = refl
same_name_refl (c ∷ s) =
    let z : is_zero (difference c c) ≡ true = ground arith in rw z (same_name_refl s)
