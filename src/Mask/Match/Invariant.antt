-- ===== src/Mask/Match/Invariant.antt =====
-- The invariant of the loop of `match` in src/match.c, kept by going back and by comparing.
use igniteircd.Prelude.{
  ℕ, ◌+◌, ◌*◌, ◌≤◌, ◌<◌, ◌≡◌, refl, sym, ap, subst, ◌↔◌, ◌⊎◌, inl, inr, Bool, true, false, not,
  ◌||◌, [], ◌∷◌, Text, length, All, ◌==◌, arith, Bool-cases, ==-refl, ◌∙◌, right_table,
  right_table_at,
}
use mathlib.Core.Path.{subst₂}
use mathlib.Core.Bool.{false≢true}
use igniteircd.Chars.Tables.{to_lower, IsChar}
use igniteircd.Mask.Spec.{
  is_star, is_any, agrees, starred, Matches, skip, take, one_inv, star_inv, not-nil-Matches,
}
use igniteircd.Mask.Match.{
  State, Verdict, stop, go, overrun, char_at, next, restart, step_back, compare_chars,
}
use igniteircd.Mask.Match.Run.{
  Run, here, Run-up, Run-down, Run-onward, Run-later, Run-length, Run-shorter, Run-IsChar,
}

to_lower-pos_table : right_table 256 (λ c. c == 0 || not (to_lower 0 == to_lower c)) ≡ true
unfolding right_table to_lower
to_lower-pos_table = refl

false_of_pos : (c : ℕ) (b : Bool) → (c == 0 || not b) ≡ true → 0 < c → b ≡ false
false_of_pos c b h p = ground arith

-- No character of a text has the lower case form of the NUL.
to_lower-pos : (c : ℕ) → IsChar c → (to_lower 0 == to_lower c) ≡ false
to_lower-pos c (p, q) = false_of_pos c _ (right_table_at 256 _ c to_lower-pos_table q) p

pub restart_lem :
    (s : State) (d : ℕ) (rest : Text)
    → s.na ≡ d ∷ rest
    → restart s ≡ go (record s { before = s.ma_before; m = s.ma; n = rest; na = rest })
unfolding restart
restart_lem s d rest e = ground arith

compare_ends : (s : State) → s.m ≡ [] → s.n ≡ [] → compare_chars s ≡ go s
unfolding compare_chars
compare_ends s em en = ground (arith, ==-refl (to_lower 0))

compare_agree :
    (s : State) (c d : ℕ) (m n : Text)
    → s.m ≡ c ∷ m
    → s.n ≡ d ∷ n
    → agrees c d ≡ true
    → compare_chars s ≡ go (record s { before = c ∷ s.before; m = m; n = n })
unfolding compare_chars
compare_agree s c d m n em en a = ground arith

compare_differ :
    (s : State) (m n : Text)
    → s.m ≡ m
    → s.n ≡ n
    → is_any (char_at m) ≡ false
    → (to_lower (char_at m) == to_lower (char_at n)) ≡ false
    → compare_chars s ≡ step_back s
unfolding compare_chars
compare_differ s m n em en q h = ground arith

-- It falls with every round: a star takes a character, or the mask is passed further.
abbrev pub measure : Text → State → ℕ
measure mask s = length s.na * (length mask + 1) + length s.m

-- `G` is the question asked at the start, `mask` its mask.
module _ (G : Type 0) (mask : Text) where
  -- What the saved pointers mean: none yet, or the last star with what follows it.
  abbrev pub Saved : State → Type 0
  Saved s =
      ((s.wild ≡ false) × (G ↔ Matches s.ma s.na) × Run [] s.ma s.na s.before s.m s.n)
      ⊎ ((s.wild ≡ true)
          × (G ↔ Matches (starred s.ma) s.na)
          × (is_star (char_at s.ma) ≡ false)
          × Run s.ma_before s.ma s.na s.before s.m s.n)

  pub record Inv (s : State) : Type 0 where
    pub saved : Saved s
    pub chars : All IsChar s.na
    pub short : length s.ma ≤ length mask

  -- A verdict after which the invariant holds again and the measure is below the bound, or the
  -- right answer.
  abbrev pub Goes : ℕ → Verdict → Type 0
  Goes k (stop true) = G
  Goes k (stop false) = ¬ G
  Goes k (go s) = Inv s × (measure mask s < k)
  Goes k overrun = ⊥

  pub up : {s : State} → Inv s → Matches s.m s.n → G
  up i x = elim i.saved [
    | inl (w, e, r) ↦ e.1 (Run-up r x)
    | inr (w, e, h, r) ↦ e.1 (skip refl (Run-up r x))
  ]

  pub later : {s : State} → Inv s → G → Matches (starred s.m) s.n
  later i g = elim i.saved [
    | inl (w, e, r) ↦ skip refl (Run-down r (e.0 g))
    | inr (w, e, h, r) ↦ Run-later r (e.0 g)
  ]

  -- At a mismatch with what follows the last star, that star takes one more character.
  pub restart-Goes :
      (k : ℕ) (s : State) (na : Text)
      → s.na ≡ na
      → s.wild ≡ true
      → Inv s
      → ¬ Matches s.ma s.na
      → 0 < length s.na
      → measure mask s ≤ k
      → Goes k (restart s)
  restart-Goes k s [] e w i no_match h hk = ground arith
  restart-Goes k s (d ∷ rest) e w i no_match h hk =
      let na_matches = λ (x : Matches (starred s.ma) s.na).
        star_inv refl (subst (Matches (starred s.ma)) e x)
          (λ y. no_match (subst (Matches s.ma) (sym e) y)) in
      rw (restart_lem s d rest e) (elim i.saved [
        | inl (w', q, r) ↦ cc
        | inr (w', q, t, r) ↦ (
          record {
            saved = inr (
              w,
              (
                λ g. na_matches (q.0 g),
                λ x. q.1 (subst (Matches (starred s.ma)) (sym e) (take refl x)),
              ),
              t,
              here,
            );
            chars = (subst (All IsChar) e i.chars).1;
            short = i.short;
          },
          omega (
            arith,
            ap length e,
            i.short,
            hk,
            ap (λ (n : ℕ). n * (length mask + 1)) (ap length e),
          ),
        )
      ])

  -- After a mismatch the last star has to take one more character.
  pub step_back-Goes :
      (k : ℕ) (s : State)
      → Inv s
      → ¬ Matches s.m s.n
      → 0 < length s.n
      → measure mask s ≤ k
      → Goes k (step_back s)
  unfolding step_back
  step_back-Goes k s i no_match h hk = elim i.saved [
    | inl (w, e, r) ↦ simp w (λ g. no_match (Run-down r (e.0 g)))
    | inr (w, e, t, r) ↦ simp w (
        restart-Goes k s s.na refl w i (λ x. no_match (Run-down r x))
          (omega (arith, Run-length r, Run-shorter r)) hk)
  ]

  Inv-advance :
      (s : State) (c d : ℕ) (m n : Text)
      → s.m ≡ c ∷ m
      → s.n ≡ d ∷ n
      → agrees c d ≡ true
      → Inv s
      → Inv (record s { before = c ∷ s.before; m = m; n = n })
  Inv-advance s c d m n em en a i = record {
    saved = elim i.saved [
      | inl (w, e, r) ↦ inl (w, e, Run-onward c d em en a r)
      | inr (w, e, t, r) ↦ inr (w, e, t, Run-onward c d em en a r)
    ];
    chars = i.chars;
    short = i.short;
  }

  pub saved_bounds : {s : State} → Inv s → (length s.n ≤ length s.na) × (length s.m ≤ length mask)
  saved_bounds i = elim i.saved [
    | inl (w, e, r) ↦
        (omega (arith, Run-length r, Run-shorter r), omega (arith, Run-shorter r, i.short))
    | inr (w, e, t, r) ↦
        (omega (arith, Run-length r, Run-shorter r), omega (arith, Run-shorter r, i.short))
  ]

  pub saved-IsChar : {s : State} → Inv s → All IsChar s.n
  saved-IsChar i = elim i.saved [
    | inl (w, e, r) ↦ Run-IsChar r i.chars
    | inr (w, e, t, r) ↦ Run-IsChar r i.chars
  ]

  pub compare_chars-Goes :
      (k : ℕ) (s : State) (m n : Text)
      → s.m ≡ m
      → s.n ≡ n
      → Inv s
      → is_star (char_at m) ≡ false
      → (0 < length m → 0 < length n)
      → measure mask s ≤ k
      → length s.na * (length mask + 1) + length (next m) < k
      → Goes k (compare_chars s)
  compare_chars-Goes k s [] [] em en i t h hk hn =
      rw (compare_ends s em en) (i, omega (arith, ap length em, hn))
  compare_chars-Goes k s [] (d ∷ n) em en i t h hk hn =
      let chars : All IsChar (d ∷ n) = subst (All IsChar) en (saved-IsChar i) in
      rw (compare_differ s [] (d ∷ n) em en refl (to_lower-pos d chars.0)) (
        step_back-Goes k s i (λ x. not-nil-Matches (subst₂ Matches em en x))
          (omega (arith, ap length en)) hk)
  compare_chars-Goes k s (c ∷ m) [] em en i t h hk hn = absurd (omega (arith, h (omega arith)))
  compare_chars-Goes k s (c ∷ m) (d ∷ n) em en i t h hk hn = elim (Bool-cases (agrees c d)) [
    | inl a ↦ rw (compare_agree s c d m n em en a) (Inv-advance s c d m n em en a i, hn)
    | inr a ↦ rw (compare_differ s (c ∷ m) (d ∷ n) em en (ground arith) (ground arith)) (
        step_back-Goes k s i (λ x. false≢true (sym a ∙ (one_inv t (subst₂ Matches em en x)).0))
          (omega (arith, ap length en)) hk)
  ]
