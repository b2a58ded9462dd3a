-- ===== src/Parse/Line/Words.antt =====
-- How `parse` of src/parse.c takes apart a line as clients write it: a command and its parameters.
use igniteircd.Prelude.{
  ℕ, zero, suc, ◌-◌, ◌≤◌, ◌<◌, ◌≡◌, ◌≢◌, inl, inr, refl, sym, subst, ◌∙◌, false, none, List, [],
  ◌∷◌, ◌++◌, Text, length, ◌==◌, ltb, if◌then◌else◌, Bool-cases, All, arith, get_or,
}
use igniteircd.Chars.Tables.{IsChar, is_digit}
use igniteircd.Parse.Line.{
  maxpara, prefix_of, split_prefix, skip_spaces, word, is_numeric, behind_space, split_command,
  split_params, params,
}
use igniteircd.Parse.Line.Split.{ArePlain, line_of, split_params-line_of, space_first}

-- What follows a word is nothing, or begins with a space.
pub word_only :
    (w : Text) (ps : List Text)
    → All (λ d. IsChar d × (d ≢ b' ')) w
    → word (w ++ line_of ps) ≡ (w, line_of ps)
unfolding word
word_only [] [] h = refl
word_only [] (p ∷ ps) h = let (s, e) = space_first p ps in rw e refl
word_only (c ∷ w) ps h =
    let no_space : (c == b' ') ≡ false = ground (arith, h.0.1) in
    rw (no_space, word_only w ps h.1) refl

pub prefix_of-line : (c : ℕ) (s : Text) → c ≢ b':' → c ≢ b' ' → prefix_of (c ∷ s) ≡ (none, c ∷ s)
unfolding prefix_of skip_spaces split_prefix
prefix_of-line c s colon space =
    let no_space : (c == b' ') ≡ false = ground (arith, space) in
    let no_colon : (c == b':') ≡ false = ground (arith, colon) in rw (no_space, no_colon) refl

pub is_numeric-letter : (c : ℕ) (s : Text) → is_digit c ≡ false → is_numeric (c ∷ s) ≡ false
unfolding is_numeric
is_numeric-letter c s h = elim (Bool-cases (get_or (c ∷ s) 3 0 == b' ')) [
  | inl e ↦ rw (e, h) refl
  | inr e ↦ rw e refl
]

split_params-space : (k : ℕ) (s : Text) → split_params k (b' ' ∷ s) ≡ split_params k s
unfolding split_params skip_spaces
split_params-space zero s = refl
split_params-space (suc k) s = refl

pub params-line_of :
    (n : ℕ) (ps : List Text)
    → ArePlain ps
    → length ps < n
    → length ps < maxpara
    → params n (behind_space (line_of ps)) ≡ ps
unfolding params behind_space
params-line_of n [] h few short = refl
params-line_of n (p ∷ ps) h few short =
    let k = (if ltb maxpara n then maxpara else n) - 1 in
    let enough : length (p ∷ ps) ≤ k = ground (arith, few, short) in
    let back = split_params-line_of k (p ∷ ps) h enough in
    let (s, e) = space_first p ps in
    rw e (sym (split_params-space k s) ∙ subst (λ l. split_params k l ≡ p ∷ ps) e back)

pub split_command-line :
    (w : Text) (ps : List Text)
    → All (λ d. IsChar d × (d ≢ b' ')) w
    → split_command (w ++ line_of ps) ≡ (w, behind_space (line_of ps))
unfolding split_command
split_command-line w ps h = rw (word_only w ps h) refl
