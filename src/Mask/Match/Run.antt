-- ===== src/Mask/Match/Run.antt =====
-- What the loop of `match` in src/match.c has passed since the last star.
use igniteircd.Prelude.{
  ℕ, ◌+◌, ◌≤◌, ◌≡◌, refl, ◌↔◌, inl, inr, true, false, [], ◌∷◌, Text, length, All, arith, Bool-cases,
}
use mathlib.Core.Path.{subst₂}
use igniteircd.Chars.Tables.{IsChar}
use igniteircd.Mask.Spec.{
  is_star, is_any, agrees, starred, Matches, done, one, skip, take, one_inv, star-star, star-swap,
  drop_one,
}
use igniteircd.Mask.Match.{char_at, skip_stars, ends_in_star}

-- The pointers went from (b₀, a, na) to (b, m, n), each pair of characters agreeing.
pub data Run (b₀ a na : Text) : Text → Text → Text → Type 0 where
  here : Run b₀ a na b₀ a na
  onward :
      {b m n : Text} {c d : ℕ}
      → agrees c d ≡ true
      → Run b₀ a na b (c ∷ m) (d ∷ n)
      → Run b₀ a na (c ∷ b) m n

pub not-star_of_agrees : (c d : ℕ) → agrees c d ≡ true → is_star c ≡ false
not-star_of_agrees c d h = ground arith

module _ {b₀ a na : Text} where
  pub Run-up : {b m n : Text} → Run b₀ a na b m n → Matches m n → Matches a na
  Run-up here x = x
  Run-up (onward h r) x = Run-up r (one h x)

  pub Run-down : {b m n : Text} → Run b₀ a na b m n → Matches a na → Matches m n
  Run-down here x = x
  Run-down (onward {c = c} {d = d} h r) x = (one_inv (not-star_of_agrees c d h) (Run-down r x)).1

  pub Run-later :
      {b m n : Text} → Run b₀ a na b m n → Matches (starred a) na → Matches (starred m) n
  Run-later here x = x
  Run-later (onward {n = n} {c = c} {d = d} h r) x =
      drop_one b'*' d n refl (not-star_of_agrees c d h) (Run-later r x)

  pub Run-onward :
      {b m m' n n' : Text} (c d : ℕ)
      → m ≡ c ∷ m'
      → n ≡ d ∷ n'
      → agrees c d ≡ true
      → Run b₀ a na b m n
      → Run b₀ a na (c ∷ b) m' n'
  Run-onward {b} c d em en h r = onward h (subst₂ (Run b₀ a na b) em en r)

  pub Run-length : {b m n : Text} → Run b₀ a na b m n → length na + length m ≡ length a + length n
  Run-length here = omega arith
  Run-length (onward h r) = omega (arith, Run-length r)

  pub Run-shorter : {b m n : Text} → Run b₀ a na b m n → length m ≤ length a
  Run-shorter here = omega arith
  Run-shorter (onward h r) = omega (arith, Run-shorter r)

  pub Run-IsChar : {b m n : Text} → Run b₀ a na b m n → All IsChar na → All IsChar n
  Run-IsChar here x = x
  Run-IsChar (onward h r) x = (Run-IsChar r x).1

abbrev pub AllAny : Text → Type 0
AllAny = All (λ c. is_any c ≡ true)

add_any :
    {e c : ℕ} {m n : Text} (d : ℕ)
    → is_star e ≡ true
    → is_any c ≡ true
    → Matches (e ∷ m) n
    → Matches (e ∷ c ∷ m) (d ∷ n)
add_any d h q (one s x) = ground arith
add_any d h q (skip s x) = skip h (one (ground arith) x)
add_any d h q (take {d = d'} s x) = take h (add_any d' h q x)

Matches-AllAny : (m n : Text) → AllAny m → length m ≤ length n → Matches (starred m) n
Matches-AllAny [] [] q h = skip refl done
Matches-AllAny [] (d ∷ n) q h = take refl (Matches-AllAny [] n q (omega arith))
Matches-AllAny (c ∷ m) [] q h = absurd (omega arith)
Matches-AllAny (c ∷ m) (d ∷ n) (q, qs) h = add_any d refl q (Matches-AllAny m n qs (omega arith))

-- Only ? was passed since the last star: the name that is left may go to the star.
pub Run-ends_in_star :
    {b₀ a na b m n : Text}
    → Run b₀ a na b m n
    → ends_in_star b ≡ true
    → AllAny m
    → length m ≤ length n
    → Matches (starred a) na
unfolding ends_in_star
Run-ends_in_star {m} {n} here e q h = Matches-AllAny m n q h
Run-ends_in_star (onward {b = []} {c = c} {d = d} a r) e q h = cc
Run-ends_in_star (onward {b = x ∷ b} {c = c} {d = d} a r) e q h =
    Run-ends_in_star r (ground arith) (ground arith, q) (omega arith)

-- With no star passed there is none behind.
pub Run-ends_in_star_none : {a na b m n : Text} → Run [] a na b m n → ends_in_star b ≡ false
unfolding ends_in_star
Run-ends_in_star_none here = refl
Run-ends_in_star_none (onward {b = []} {c = c} {d = d} a r) = refl
Run-ends_in_star_none (onward {b = x ∷ b} {c = c} {d = d} a r) =
    ground (arith, Run-ends_in_star_none r)

pub skip_stars-Matches :
    (before m n : Text) (e : ℕ)
    → is_star e ≡ true
    → Matches (e ∷ m) n ↔ Matches (starred (skip_stars before m).1) n
unfolding skip_stars
skip_stars-Matches before [] n e h = (star-swap h refl, star-swap refl h)
skip_stars-Matches before (c ∷ m) n e h = elim (Bool-cases (is_star c)) [
  | inl k ↦
      let ih = skip_stars-Matches (c ∷ before) m n e h in
      rw k (λ x. ih.0 (star-star h k x), λ x. skip h (star-swap h k (ih.1 x)))
  | inr k ↦ rw k (star-swap h refl, star-swap refl h)
]

pub skip_stars_head : (before m : Text) → is_star (char_at (skip_stars before m).1) ≡ false
unfolding skip_stars
skip_stars_head before [] = refl
skip_stars_head before (c ∷ m) = ground (arith, skip_stars_head (c ∷ before) m)

pub skip_stars_shorter : (before m : Text) → length (skip_stars before m).1 ≤ length m
unfolding skip_stars
skip_stars_shorter before [] = omega arith
skip_stars_shorter before (c ∷ m) = ground (arith, skip_stars_shorter (c ∷ before) m)

pub skip_stars_none :
    (before : Text) (c : ℕ) (m : Text)
    → is_star c ≡ false
    → skip_stars before (c ∷ m) ≡ (before, c ∷ m)
unfolding skip_stars
skip_stars_none before c m h = rw h
