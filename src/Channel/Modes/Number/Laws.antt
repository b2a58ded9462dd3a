-- ===== src/Channel/Modes/Number/Laws.antt =====
-- The digits that vsprintf_irc of src/sprintf_irc.c prints stand for the number.
use igniteircd.Prelude.{
  ℕ, zero, suc, ◌+◌, ◌-◌, ◌*◌, ◌/◌, ◌%◌, ◌<◌, ◌≤◌, ◌≡◌, refl, sym, ap, ◌∙◌, inl, inr, pos, Bool,
  false, [], ◌∷◌, ◌++◌, Text, ◌==◌, Bool-cases, arith,
}
use igniteircd.Channel.Modes.Number.{atoi_tab, groups, skip_zeros, print_int}

-- The number that a text of digits stands for, behind the number `v`.
abbrev pub value : ℕ → Text → ℕ
value v [] = v
value v (c ∷ s) = value (v * 10 + (c - b'0')) s

abbrev pub starts_zero : Text → Bool
starts_zero [] = false
starts_zero (c ∷ s) = c == b'0'

value-atoi_tab :
    (v u : ℕ) (s : Text) → u < 1000 → value v (atoi_tab u ++ s) ≡ value (v * 1000 + u) s
unfolding atoi_tab
value-atoi_tab v u s h =
    let e : ((v * 10 + (48 + u / 100 - 48)) * 10 + (48 + u / 10 % 10 - 48)) * 10
          + (48 + u % 10 - 48)
        ≡ v * 1000 + u =
      omega arith in
    ap (λ n. value n s) e

-- The most that a number of rounds can print.
abbrev power : ℕ → ℕ
power zero = 1
power (suc n) = power n * 1000

value-groups : (fuel v : ℕ) (s : Text) → v < power fuel → value 0 (groups fuel v s) ≡ value v s
unfolding groups
value-groups zero v s h = let e : v ≡ 0 = omega arith in ap (λ n. value n s) (sym e)
value-groups (suc fuel) v s h =
    let last = value-atoi_tab (v / 1000) (v % 1000) s (omega arith) in
    let whole : v / 1000 * 1000 + v % 1000 ≡ v = omega arith in
    elim (Bool-cases (v / 1000 == 0)) [
      | inl z ↦
          let e : v / 1000 ≡ 0 = ground arith in
          rw z (
            ap (λ n. value n (atoi_tab (v % 1000) ++ s)) (sym e) ∙ last ∙ ap (λ n. value n s) whole)
      | inr f ↦ rw f (
          value-groups fuel (v / 1000) (atoi_tab (v % 1000) ++ s) (omega arith)
          ∙ last
          ∙ ap (λ n. value n s) whole)
    ]

skip_zeros_lem :
    (s : Text) → (value 0 (skip_zeros s) ≡ value 0 s) × (starts_zero (skip_zeros s) ≡ false)
unfolding skip_zeros
skip_zeros_lem [] = (refl, refl)
skip_zeros_lem (c ∷ s) = elim (Bool-cases (c == b'0')) [
  | inl t ↦
      let (v, z) = skip_zeros_lem s in
      let e : 0 * 10 + (c - b'0') ≡ 0 = ground arith in rw t (v ∙ ap (λ n. value n s) (sym e), z)
  | inr f ↦ rw f (refl, f)
]

-- The digits that `%d` prints of any number from 0 to INT_MAX stand for it, and they start with a
-- zero only for 0.
pub print_int-value :
    (n : ℕ)
    → n ≤ 2147483647
    → (value 0 (print_int (pos n)) ≡ n) × (starts_zero (print_int (pos n)) ≡ (n == 0))
unfolding print_int
print_int-value zero h = (refl, refl)
print_int-value (suc n) h =
    let (v, z) = skip_zeros_lem (groups 4 (suc n) []) in
    let e : (suc n == 0) ≡ false = ground arith in
    (v ∙ value-groups 4 (suc n) [] (omega arith), z ∙ sym e)
