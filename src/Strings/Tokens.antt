-- ===== src/Strings/Tokens.antt =====
-- Callers of strtoken in src/irc_string.c loop over all tokens of a text.
use igniteircd.Prelude.{
  ℕ, zero, suc, inl, inr, ◌<◌, ◌≤◌, ◌≡◌, refl, sym, ap, subst, ◌∙◌, Bool, true, false, Option, none,
  some, List, [], ◌∷◌, Text, length, if◌then◌else◌, Bool-cases, arith,
}
use igniteircd.Strings.{
  is_sep, skip_seps, token, behind_sep, found_token, start_of, scan_from, strtoken,
}

-- `for (p = strtoken(&save, str, fs); p; p = strtoken(&save, NULL, fs))`
abbrev pub tokens_on : ℕ → Text → Option Text × Option Text → List Text
tokens_on fuel fs (none, save) = []
tokens_on zero fs (some t, save) = []
tokens_on (suc fuel) fs (some t, save) = t ∷ tokens_on fuel fs (strtoken save none fs)

-- The parts between separators, the first one and the others.
abbrev pub parts : Text → Text → Text × List Text
parts fs [] = ([], [])
parts fs (c ∷ s) = let (p, ps) = parts fs s in if is_sep fs c then ([], p ∷ ps) else (c ∷ p, ps)

abbrev keep_part : Text → List Text → List Text
keep_part [] ps = ps
keep_part (c ∷ p) ps = (c ∷ p) ∷ ps

abbrev pub not_empty : List Text → List Text
not_empty [] = []
not_empty (p ∷ ps) = keep_part p (not_empty ps)

-- The parts that are not empty.
abbrev pub words : Text → Text → List Text
words fs s = keep_part ((parts fs s).0) (not_empty ((parts fs s).1))

words-sep : (fs : Text) (c : ℕ) (s : Text) → is_sep fs c ≡ true → words fs (c ∷ s) ≡ words fs s
words-sep fs c s e = rw e refl

then_branch : (b : Bool) (x y : Text) → b ≡ true → (if b then x else y) ≡ x
then_branch b x y e = rw e refl

else_branch : (b : Bool) (x y : Text) → b ≡ false → (if b then x else y) ≡ y
else_branch b x y e = rw e refl

-- Skipping separators comes to the end, or to a character that is none, and loses no part.
abbrev Skipped : Text → Text → Text → Type 0
Skipped fs s [] = words fs s ≡ []
Skipped fs s (c ∷ pos) =
    (is_sep fs c ≡ false) × (words fs s ≡ words fs (c ∷ pos)) × (length pos < length s)

skip_more :
    (fs : Text) (c : ℕ) (s t : Text) → is_sep fs c ≡ true → Skipped fs s t → Skipped fs (c ∷ s) t
skip_more fs c s [] e h = words-sep fs c s e ∙ h
skip_more fs c s (d ∷ t) e h = (h.0, words-sep fs c s e ∙ h.1, omega (arith, h.2))

skip_seps-Skipped : (fs s : Text) → Skipped fs s (skip_seps fs s)
unfolding skip_seps
skip_seps-Skipped fs [] = refl
skip_seps-Skipped fs (c ∷ s) = elim (Bool-cases (is_sep fs c)) [
  | inl e ↦
      subst (Skipped fs (c ∷ s)) (sym (then_branch (is_sep fs c) (skip_seps fs s) (c ∷ s) e))
        (skip_more fs c s (skip_seps fs s) e (skip_seps-Skipped fs s))
  | inr e ↦
      subst (Skipped fs (c ∷ s)) (sym (else_branch (is_sep fs c) (skip_seps fs s) (c ∷ s) e))
        (e, refl, omega arith)
]

-- What a scan leaves.
abbrev words_left : Text → Option Text → List Text
words_left fs none = []
words_left fs (some s) = words fs s

left_words :
    (fs s : Text) → not_empty ((parts fs s).1) ≡ words_left fs (behind_sep ((token fs s).1))
unfolding token behind_sep
left_words fs [] = refl
left_words fs (c ∷ s) = elim (Bool-cases (is_sep fs c)) [
  | inl e ↦ rw e refl
  | inr e ↦ rw e (left_words fs s)
]

first_part : (fs s : Text) → (parts fs s).0 ≡ (token fs s).0
unfolding token
first_part fs [] = refl
first_part fs (c ∷ s) = elim (Bool-cases (is_sep fs c)) [
  | inl e ↦ rw e refl
  | inr e ↦ rw e (ap (◌∷◌ c) (first_part fs s))
]

length-token : (fs s : Text) → length ((token fs s).1) ≤ length s
unfolding token
length-token fs [] = omega arith
length-token fs (c ∷ s) = elim (Bool-cases (is_sep fs c)) [
  | inl e ↦ rw e (omega arith)
  | inr e ↦ rw e (omega (arith, length-token fs s))
]

-- The rounds that a scan may still take.
abbrev size : Option Text → ℕ
size none = 0
size (some s) = suc (length s)

size-behind_sep : (s : Text) → size (behind_sep s) ≤ length s
unfolding behind_sep
size-behind_sep [] = omega arith
size-behind_sep (c ∷ s) = omega arith

-- A token that begins at no separator is the first word.
found_word :
    (fs : Text) (c : ℕ) (pos : Text)
    → is_sep fs c ≡ false
    → words fs (c ∷ pos)
      ≡ (token fs (c ∷ pos)).0 ∷ words_left fs (behind_sep ((token fs (c ∷ pos)).1))
unfolding token
found_word fs c pos e = rw e (
    ap (λ p. (c ∷ p) ∷ not_empty ((parts fs pos).1)) (first_part fs pos)
    ∙ ap (◌∷◌ (c ∷ (token fs pos).0)) (left_words fs pos))

left_size :
    (fs : Text) (c : ℕ) (pos : Text)
    → is_sep fs c ≡ false
    → size (behind_sep ((token fs (c ∷ pos)).1)) ≤ length pos
unfolding token
left_size fs c pos e = rw e (omega (arith, size-behind_sep ((token fs pos).1), length-token fs pos))

-- A scan goes on from what is left, where it is right from each text that is short enough.
scan_left :
    (fuel : ℕ) (fs : Text)
    → ((s t : Text)
        → Skipped fs s t
        → length s < fuel
        → tokens_on fuel fs (found_token fs t) ≡ words fs s)
    → (save : Option Text) → size save ≤ fuel
    → tokens_on fuel fs (scan_from fs save) ≡ words_left fs save
unfolding scan_from
scan_left fuel fs right none enough = refl
scan_left fuel fs right (some s) enough = right s (skip_seps fs s) (skip_seps-Skipped fs s) enough

tokens_found :
    (fuel : ℕ) (fs s t : Text)
    → Skipped fs s t
    → length s < fuel
    → tokens_on fuel fs (found_token fs t) ≡ words fs s
unfolding found_token strtoken start_of
tokens_found fuel fs s [] h enough = sym h
tokens_found zero fs s (c ∷ pos) h enough = absurd (omega (arith, enough))
tokens_found (suc fuel) fs s (c ∷ pos) h enough =
    ap (◌∷◌ ((token fs (c ∷ pos)).0)) (
      scan_left fuel fs (tokens_found fuel fs) (behind_sep ((token fs (c ∷ pos)).1))
        (omega (arith, left_size fs c pos h.0, h.2, enough)))
    ∙ sym (h.1 ∙ found_word fs c pos h.0)

-- The loop over strtoken ends, after at most one round more than the text has characters, and
-- gives all parts of the text between separators that are not empty, in their order, whatever
-- `*save` was at first.
pub strtoken_all :
    (fuel : ℕ) (fs s : Text) (save : Option Text)
    → length s < fuel
    → tokens_on fuel fs (strtoken save (some s) fs) ≡ words fs s
unfolding strtoken start_of
strtoken_all fuel fs s save enough = scan_left fuel fs (tokens_found fuel fs) (some s) enough
