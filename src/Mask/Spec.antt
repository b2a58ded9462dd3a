-- ===== src/Mask/Spec.antt =====
-- What it means for a name to match a mask, with no search order in it: the comment above
-- `match` in src/match.c. A * stands for any characters, a ? for one, any other for itself.
use igniteircd.Prelude.{ℕ, ◌≡◌, Bool, true, false, not, ◌&&◌, ◌||◌, [], ◌∷◌, Text, ◌==◌, arith}
use igniteircd.Chars.Tables.{to_lower}

abbrev pub is_star : ℕ → Bool
is_star c = c == b'*'

abbrev pub is_any : ℕ → Bool
is_any c = c == b'?'

-- A mask character other than a star accepts a character of the name.
abbrev pub agrees : ℕ → ℕ → Bool
agrees c d = not (is_star c) && (is_any c || to_lower c == to_lower d)

pub data Matches : Text → Text → Type 0 where
  done : Matches [] []
  one : {c d : ℕ} {m n : Text} → agrees c d ≡ true → Matches m n → Matches (c ∷ m) (d ∷ n)
  skip : {c : ℕ} {m n : Text} → is_star c ≡ true → Matches m n → Matches (c ∷ m) n
  take : {c d : ℕ} {m n : Text} → is_star c ≡ true → Matches (c ∷ m) n → Matches (c ∷ m) (d ∷ n)

-- A star before the mask.
abbrev pub starred : Text → Text
starred m = b'*' ∷ m

pub one_inv :
    {c d : ℕ} {m n : Text}
    → is_star c ≡ false
    → Matches (c ∷ m) (d ∷ n)
    → (agrees c d ≡ true) × Matches m n
one_inv h (one a x) = (a, x)
one_inv h (skip s x) = ground arith
one_inv h (take s x) = ground arith

pub not-Matches-nil : {c : ℕ} {m : Text} → is_star c ≡ false → ¬ Matches (c ∷ m) []
not-Matches-nil h (skip s x) = ground arith

pub not-Matches-star_nil : {e c : ℕ} {m : Text} → is_star c ≡ false → ¬ Matches (e ∷ c ∷ m) []
not-Matches-star_nil h (skip s x) = not-Matches-nil h x

pub not-nil-Matches : {d : ℕ} {n : Text} → ¬ Matches [] (d ∷ n)
not-nil-Matches x = elim x [ ]

pub star_inv :
    {c d : ℕ} {m n : Text}
    → is_star c ≡ true
    → Matches (c ∷ m) (d ∷ n)
    → ¬ Matches m (d ∷ n)
    → Matches (c ∷ m) n
star_inv h (one a x) no_match = ground arith
star_inv h (skip s x) no_match = absurd (no_match x)
star_inv h (take s x) no_match = x

pub star-swap :
    {c e : ℕ} {m n : Text}
    → is_star c ≡ true
    → is_star e ≡ true
    → Matches (c ∷ m) n
    → Matches (e ∷ m) n
star-swap h k (one a x) = ground arith
star-swap h k (skip s x) = skip k x
star-swap h k (take s x) = take k (star-swap h k x)

-- Two stars in a row are worth one.
pub star-star :
    {c e : ℕ} {m n : Text}
    → is_star c ≡ true
    → is_star e ≡ true
    → Matches (c ∷ e ∷ m) n
    → Matches (c ∷ m) n
star-star h k (one a x) = ground arith
star-star h k (skip s x) = star-swap k h x
star-star h k (take s x) = take h (star-star h k x)

-- Why going back to the last star loses nothing: wherever the character after the star is
-- taken, what follows it begins after the first character.
pub drop_one :
    {c : ℕ} {m : Text} (e d : ℕ) (n : Text)
    → is_star e ≡ true
    → is_star c ≡ false
    → Matches (e ∷ c ∷ m) (d ∷ n)
    → Matches (e ∷ m) n
drop_one e d n s h (one a x) = ground arith
drop_one e d n s h (skip t x) = skip s (one_inv h x).1
drop_one e d [] s h (take t (skip u x)) = absurd (not-Matches-nil h x)
drop_one e d (d' ∷ n) s h (take t x) = take s (drop_one e d' n s h x)
