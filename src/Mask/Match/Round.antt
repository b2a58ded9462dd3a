-- ===== src/Mask/Match/Round.antt =====
-- A round of `match` in src/match.c: what it keeps, and that its measure goes down.
use igniteircd.Prelude.{
  ℕ, zero, suc, ◌+◌, ◌*◌, ◌≤◌, ◌<◌, ◌≡◌, refl, sym, ap, subst, inl, inr, true, false, [], ◌∷◌, Text,
  length, arith, Bool-cases, ◌∙◌,
}
use mathlib.Core.Path.{subst₂}
use mathlib.Core.Bool.{false≢true}
use igniteircd.Mask.Spec.{
  is_star, starred, Matches, done, star-star, star-swap, not-Matches-star_nil, not-nil-Matches,
}
use igniteircd.Mask.Match.{
  State, Verdict, Outcome, stop, go, overrun, returned, ran_over, gave_up, char_at, next,
  skip_stars, enter_star, ends_in_star, restart, step_back, compare_chars, and_then, at_ends, round,
  match_loop, is_empty,
}
use igniteircd.Mask.Match.Run.{
  AllAny, here, Run-down, Run-length, Run-ends_in_star, Run-ends_in_star_none, skip_stars-Matches,
  skip_stars_head, skip_stars_none, skip_stars_shorter,
}
use igniteircd.Mask.Match.Invariant.{
  Inv, saved_bounds, saved-IsChar, measure, Goes, up, later, restart_lem, restart-Goes,
  compare_chars-Goes,
}

mul-le : (a b k : ℕ) → a ≤ b → a * k ≤ b * k
mul-le a b k h = grind arith

enter_star_lem :
    (s : State) (c : ℕ) (m : Text)
    → s.m ≡ c ∷ m
    → is_star c ≡ true
    → let skipped = skip_stars s.before s.m in
      enter_star s ≡ record s {
        before = skipped.0;
        m = skipped.1;
        wild = true;
        ma_before = skipped.0;
        ma = skipped.1;
        na = s.n;
      }
unfolding enter_star
enter_star_lem s c m e h = ground arith

next-le : (m : Text) → length (next m) ≤ length m
next-le [] = omega arith
next-le (c ∷ m) = omega arith

step_back_plain : (s : State) → s.wild ≡ false → step_back s ≡ stop false
unfolding step_back
step_back_plain s w = ground arith

step_back_wild : (s : State) → s.wild ≡ true → step_back s ≡ restart s
unfolding step_back
step_back_wild s w = ground arith

enter_star_none : (s : State) → is_star (char_at s.m) ≡ false → enter_star s ≡ s
unfolding enter_star
enter_star_none s h = ground arith

module _ (G : Type 0) (mask : Text) where
  -- Ready for the tests of a round: no star stands at the pointer into the mask.
  abbrev Ready : ℕ → State → Type 0
  Ready k t = Inv G mask t × (is_star (char_at t.m) ≡ false) × (measure mask t ≤ k)

  enter_star-Ready :
      (s : State) (m : Text) → s.m ≡ m → Inv G mask s → Ready (measure mask s) (enter_star s)
  enter_star-Ready s [] e i = rw (enter_star_none s (ground arith)) (i, ground arith, omega arith)
  enter_star-Ready s (c ∷ m) e i = elim (Bool-cases (is_star c)) [
    | inr h ↦ rw (enter_star_none s (ground arith)) (i, ground arith, omega arith)
    | inl h ↦
        let mid = skip_stars-Matches s.before s.m s.n b'*' refl in
        let bounds = saved_bounds G mask i in
        let shorter = skip_stars_shorter s.before s.m in
        let back = λ (x : Matches (starred s.m) s.n).
          subst (λ p. Matches p s.n) (sym e)
            (star-swap refl h (star-star refl h (subst (λ p. Matches (starred p) s.n) e x))) in
        rw (enter_star_lem s c m e h) (
          record {
            saved = inr (
              refl,
              (λ g. mid.0 (later G mask i g), λ x. up G mask i (back (mid.1 x))),
              skip_stars_head s.before s.m,
              here,
            );
            chars = saved-IsChar G mask i;
            short = omega arith;
          },
          skip_stars_head s.before s.m,
          omega (arith, mul-le (length s.n) (length s.na) (length mask + 1) bounds.0),
        )
  ]

  -- The name is left over: only a last star can take it.
  left_over-Goes :
      (k : ℕ) (s : State) (d : ℕ) (n : Text)
      → s.m ≡ []
      → s.n ≡ d ∷ n
      → Inv G mask s
      → measure mask s ≤ k
      → Goes G mask k (and_then (step_back s) compare_chars)
  unfolding and_then
  left_over-Goes k s d n em en i hk = elim i.saved [
    | inl (w, e, r) ↦
        rw (step_back_plain s w) (λ g. not-nil-Matches (subst₂ Matches em en (Run-down r (e.0 g))))
    | inr (w, e, t, r) ↦
        take_one s.na refl w t (omega (arith, Run-length r, ap length em, ap length en))
          (λ x. not-nil-Matches (subst₂ Matches em en (Run-down r x)))
  ]
    where
      take_one :
          (na : Text)
          → s.na ≡ na
          → s.wild ≡ true
          → is_star (char_at s.ma) ≡ false
          → length s.ma < length s.na
          → ¬ Matches s.ma s.na
          → Goes G mask k (and_then (step_back s) compare_chars)
      take_one [] e w t h no_match = absurd (omega (arith, ap length e))
      take_one (x ∷ rest) e w t h no_match =
          let s' : State = record s { before = s.ma_before; m = s.ma; n = rest; na = rest } in
          let went : Inv G mask s' × (measure mask s' < k) =
            subst (Goes G mask k) (restart_lem s x rest e)
              (restart-Goes G mask k s s.na refl w i no_match (omega arith) hk) in
          rw (step_back_wild s w, restart_lem s x rest e)
            (compare_chars-Goes G mask k _ s.ma rest refl refl went.0 t
              (λ p. omega (arith, ap length e)) (omega (arith, went.1))
              (omega (arith, went.1, next-le s.ma)))

  -- The test behind the last star answers rightly.
  last_star :
      {d : ℕ} {n : Text} (s : State)
      → s.m ≡ []
      → s.n ≡ d ∷ n
      → Inv G mask s
      → ends_in_star s.before ≡ true
      → G
  last_star s em en i e = elim i.saved [
    | inl (w, q, r) ↦ absurd (false≢true (sym (Run-ends_in_star_none r) ∙ e))
    | inr (w, q, t, r) ↦
        q.1 (Run-ends_in_star r e (subst AllAny (sym em) tt) (omega (arith, ap length em)))
  ]

  at_ends-Goes :
      (k : ℕ) (s : State) (m n : Text)
      → s.m ≡ m
      → s.n ≡ n
      → Inv G mask s
      → is_star (char_at m) ≡ false
      → measure mask s ≤ k
      → Goes G mask k (at_ends m n s)
  unfolding at_ends is_empty
  at_ends-Goes k s [] [] em en i t hk = up G mask i (subst₂ Matches (sym em) (sym en) done)
  at_ends-Goes k s [] (d ∷ n) em en i t hk = elim (Bool-cases (ends_in_star s.before)) [
    | inl e ↦ simp e (last_star s em en i e)
    | inr e ↦ simp e (left_over-Goes k s d n em en i hk)
  ]
  at_ends-Goes k s (c ∷ m) [] em en i t hk =
      rw (skip_stars_none s.before c m t) (λ g.
        not-Matches-star_nil t (subst₂ (λ a b. Matches (starred a) b) em en (later G mask i g)))
  at_ends-Goes k s (c ∷ m) (d ∷ n) em en i t hk =
      compare_chars-Goes G mask k s (c ∷ m) (d ∷ n) em en i t (λ _. omega arith) hk
        (omega (arith, ap length em, hk))

  round-Goes : (s : State) → Inv G mask s → Goes G mask (measure mask s) (round s)
  unfolding round
  round-Goes s i =
      let t = enter_star s in
      let (j, head, small) = enter_star-Ready s s.m refl i in
      at_ends-Goes (measure mask s) t t.m t.n refl refl j head small

  -- The right answer, or a counter that was not above the measure.
  abbrev pub Answers : ℕ → ℕ → Outcome → Type 0
  Answers calls k (returned true) = G
  Answers calls k (returned false) = ¬ G
  Answers calls k ran_over = ⊥
  Answers calls k gave_up = calls ≤ k

  after_round :
      (calls k : ℕ) (v : Verdict)
      → Goes G mask k v
      → ((t : State) → Inv G mask t → Answers calls (measure mask t) (match_loop calls t))
      → Answers
          (suc calls)
          k
          (elim v [ stop b ↦ returned b | go t ↦ match_loop calls t | overrun ↦ ran_over ])
  after_round calls k (stop true) h ih = h
  after_round calls k (stop false) h ih = h
  after_round calls k overrun h ih = elim h [ ]
  after_round calls k (go t) (i, small) ih = weaken (match_loop calls t) (ih t i)
    where
      weaken : (o : Outcome) → Answers calls (measure mask t) o → Answers (suc calls) k o
      weaken (returned true) a = a
      weaken (returned false) a = a
      weaken ran_over a = a
      weaken gave_up a = omega arith

  pub match_loop-Answers :
      (calls : ℕ) (s : State) → Inv G mask s → Answers calls (measure mask s) (match_loop calls s)
  unfolding match_loop
  match_loop-Answers zero s i = omega arith
  match_loop-Answers (suc calls) s i =
      after_round calls (measure mask s) (round s) (round-Goes s i) (match_loop-Answers calls)
