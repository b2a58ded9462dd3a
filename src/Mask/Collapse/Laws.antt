-- ===== src/Mask/Collapse/Laws.antt =====
-- `collapse` of src/match.c: the mask means what it meant, and no two stars stand together.
use igniteircd.Prelude.{
  ℕ, zero, suc, ◌≤◌, ◌≡◌, ◌↔◌, inl, inr, ◌&&◌, true, false, [], ◌∷◌, Text, if◌then◌else◌, arith,
  Bool-cases, length,
}
use igniteircd.Mask.Spec.{is_star, Matches, one, skip, take, star-star, star-swap}
use igniteircd.Mask.Collapse.{drop_stars, collapse_loop, collapse}

under :
    {a b n : Text} (c : ℕ)
    → ((k : Text) → Matches a k → Matches b k)
    → Matches (c ∷ a) n
    → Matches (c ∷ b) n
under c f (one h x) = one h (f _ x)
under c f (skip h x) = skip h (f _ x)
under c f (take h x) = take h (under c f x)

drop_stars-Matches :
    (c : ℕ) (m n : Text) → is_star c ≡ true → Matches (c ∷ drop_stars m) n ↔ Matches (c ∷ m) n
unfolding drop_stars
drop_stars-Matches c [] n h = (λ x. x, λ x. x)
drop_stars-Matches c (e ∷ m) n h = elim (Bool-cases (is_star e)) [
  | inl k ↦
      let (there, back) = drop_stars-Matches c m n h in
      rw k (λ x. skip h (star-swap h k (there x)), λ x. back (star-star h k x))
  | inr k ↦ rw k (λ x. x, λ x. x)
]

length-drop_stars-le : (m : Text) → length (drop_stars m) ≤ length m
unfolding drop_stars
length-drop_stars-le [] = omega arith
length-drop_stars-le (e ∷ m) = ground (arith, length-drop_stars-le m)

collapse_loop-Matches : (f : ℕ) (m n : Text) → Matches (collapse_loop f m) n ↔ Matches m n
unfolding collapse_loop
collapse_loop-Matches f [] n = (λ x. x, λ x. x)
collapse_loop-Matches zero (c ∷ m) n = (λ x. x, λ x. x)
collapse_loop-Matches (suc f) (c ∷ m) n = elim (Bool-cases (is_star c)) [
  | inl k ↦
      let (there, back) = drop_stars-Matches c m n k in
      rw k (
        λ x. there (under c (λ l. (collapse_loop-Matches f (drop_stars m) l).0) x),
        λ x. under c (λ l. (collapse_loop-Matches f (drop_stars m) l).1) (back x),
      )
  | inr k ↦ rw k (
    under c (λ l. (collapse_loop-Matches f m l).0),
    under c (λ l. (collapse_loop-Matches f m l).1),
  )
]

-- No star has a star behind it.
abbrev pub IsCollapsed : Text → Type 0
IsCollapsed [] = Unit
IsCollapsed (c ∷ []) = Unit
IsCollapsed (c ∷ d ∷ m) = ((is_star c && is_star d) ≡ false) × IsCollapsed (d ∷ m)

-- The text begins with no star, or what stands before it is none.
abbrev Follows : ℕ → Text → Type 0
Follows c [] = Unit
Follows c (d ∷ m) = (is_star c && is_star d) ≡ false

IsCollapsed-cons : (c : ℕ) (m : Text) → Follows c m → IsCollapsed m → IsCollapsed (c ∷ m)
IsCollapsed-cons c [] h k = tt
IsCollapsed-cons c (d ∷ m) h k = (h, k)

Follows-drop_stars : (c : ℕ) (m : Text) → Follows c (if is_star c then drop_stars m else m)
unfolding drop_stars
Follows-drop_stars c [] = ground arith
Follows-drop_stars c (d ∷ m) = ground (arith, Follows-drop_stars c m)

Follows-collapse_loop : (f c : ℕ) (m : Text) → Follows c m → Follows c (collapse_loop f m)
unfolding collapse_loop
Follows-collapse_loop f c [] h = tt
Follows-collapse_loop zero c (d ∷ m) h = h
Follows-collapse_loop (suc f) c (d ∷ m) h = h

collapse_loop-IsCollapsed : (f : ℕ) (m : Text) → length m ≤ f → IsCollapsed (collapse_loop f m)
unfolding collapse_loop
collapse_loop-IsCollapsed f [] h = tt
collapse_loop-IsCollapsed zero (c ∷ m) h = absurd (omega arith)
collapse_loop-IsCollapsed (suc f) (c ∷ m) h =
    let rest : Text = if is_star c then drop_stars m else m in
    IsCollapsed-cons c (collapse_loop f rest)
      (Follows-collapse_loop f c rest (Follows-drop_stars c m))
      (collapse_loop-IsCollapsed f rest (ground (arith, length-drop_stars-le m)))

-- The collapsed mask matches the names that the mask matched, and in it no star has a star
-- behind it.
pub collapse-Matches :
    (m : Text) → ((n : Text) → Matches (collapse m) n ↔ Matches m n) × IsCollapsed (collapse m)
unfolding collapse
collapse-Matches m =
    (collapse_loop-Matches (length m) m, collapse_loop-IsCollapsed (length m) m (omega arith))
