-- ===== src/Chars/Folding.antt =====
-- Case folding by the two tables of src/match.c agrees, on every byte.
use igniteircd.Prelude.{
  ℕ, ◌<◌, ◌≡◌, refl, sym, ap, ◌∙◌, ◌↔◌, Bool, true, ◌==◌, false, ◌||◌, ==_iff, not, right_table,
  right_table_at,
}
use igniteircd.Chars.Tables.{to_lower, to_upper, is_eol, is_non_eos, is_chan_char}

to_upper-to_lower_table : right_table 256 (λ c. to_upper (to_lower c) == to_upper c) ≡ true
unfolding right_table to_upper to_lower
to_upper-to_lower_table = refl

to_lower-to_upper_table : right_table 256 (λ c. to_lower (to_upper c) == to_lower c) ≡ true
unfolding right_table to_upper to_lower
to_lower-to_upper_table = refl

pub to_upper-to_lower : (c : ℕ) → c < 256 → to_upper (to_lower c) ≡ to_upper c
to_upper-to_lower c h = (==_iff _ _).0 (right_table_at 256 _ c to_upper-to_lower_table h)

pub to_lower-to_upper : (c : ℕ) → c < 256 → to_lower (to_upper c) ≡ to_lower c
to_lower-to_upper c h = (==_iff _ _).0 (right_table_at 256 _ c to_lower-to_upper_table h)

-- Two bytes have one lower case form exactly when they have one upper case form.
pub to_lower-eq_iff_to_upper :
    (a b : ℕ) → a < 256 → b < 256 → (to_lower a ≡ to_lower b) ↔ (to_upper a ≡ to_upper b)
to_lower-eq_iff_to_upper a b ha hb = (
  λ e. sym (to_upper-to_lower a ha) ∙ ap to_upper e ∙ to_upper-to_lower b hb,
  λ e. sym (to_lower-to_upper a ha) ∙ ap to_lower e ∙ to_lower-to_upper b hb,
)

same : Bool → Bool → Bool
same true b = b
same false b = not b

same→≡ : (a b : Bool) → same a b ≡ true → a ≡ b
unfolding same
same→≡ true true h = refl
same→≡ true false h = cc
same→≡ false true h = cc
same→≡ false false h = refl

abbrev pub not_in_channel_names : ℕ → Bool
not_in_channel_names c = c == 0 || c == 7 || c == b' ' || c == b','

is_chan_char_table :
    right_table 256 (λ c. same (is_chan_char c) (not (not_in_channel_names c))) ≡ true
unfolding right_table same is_chan_char
is_chan_char_table = refl

-- The table takes every byte into channel names but the NUL, ^G, the space and the comma, as
-- the note above it says.
pub is_chan_char_lem : (c : ℕ) → c < 256 → is_chan_char c ≡ not (not_in_channel_names c)
is_chan_char_lem c h = same→≡ _ _ (right_table_at 256 _ c is_chan_char_table h)

is_eol_table : right_table 256 (λ c. same (is_eol c) (c == 10 || c == 13)) ≡ true
unfolding right_table same is_eol
is_eol_table = refl

-- The ends of a line are CR and LF.
pub is_eol_lem : (c : ℕ) → c < 256 → is_eol c ≡ (c == 10 || c == 13)
is_eol_lem c h = same→≡ _ _ (right_table_at 256 _ c is_eol_table h)

is_non_eos_table : right_table 256 (λ c. same (is_non_eos c) (not (c == 0 || c == b' '))) ≡ true
unfolding right_table same is_non_eos
is_non_eos_table = refl

-- A parameter ends at a space or at the NUL.
pub is_non_eos_lem : (c : ℕ) → c < 256 → is_non_eos c ≡ not (c == 0 || c == b' ')
is_non_eos_lem c h = same→≡ _ _ (right_table_at 256 _ c is_non_eos_table h)
