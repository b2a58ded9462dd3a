-- ===== src/Parse/Tree/Visit.antt =====
-- What the loop of tree_parse in src/parse.c finds below a node, in terms of the entries.
use igniteircd.Prelude.{
  ℕ, zero, suc, ◌+◌, ◌-◌, ◌≤◌, ◌<◌, ◌≡◌, refl, sym, ap, ◌∙◌, inl, inr, true, false, not, ◌&&◌, ◌||◌,
  Option, none, some, List, [], ◌∷◌, ◌++◌, Text, length, drop, get_or, ◌==◌, if◌then◌else◌,
  Bool-cases, All, arith, right_table, right_table_at, is_zero,
}
use igniteircd.Chars.Tables.{to_upper, IsChar}
use igniteircd.Mask.Compare.{same_name, irccmp, difference}
use igniteircd.Parse.Tree.{Entry, MessageTree, pointers_of, upper_bits, is_capital, visit, walk}
use igniteircd.Parse.Tree.Order.{next_char}

-- The first entry whose command, without its first n letters, is the text up to case.
abbrev pub find : ℕ → List Entry → Text → Option ℕ
find n [] s = none
find n (e ∷ entries) s = if same_name (drop n e.cmd) s then some e.msg else find n entries s

abbrev pub or_else : Option ℕ → Option ℕ → Option ℕ
or_else none o = o
or_else (some m) o = some m

pub find-append :
    (n : ℕ) (xs ys : List Entry) (s : Text)
    → find n (xs ++ ys) s ≡ or_else (find n xs s) (find n ys s)
find-append n [] ys s = refl
find-append n (e ∷ xs) ys s = elim (Bool-cases (same_name (drop n e.cmd) s)) [
  | inl t ↦ rw t refl
  | inr f ↦ rw f (find-append n xs ys s)
]

-- The entries with this letter behind the prefix.
abbrev pub with_letter : Text → ℕ → List Entry → List Entry
with_letter p x [] = []
with_letter p x (e ∷ entries) =
    if next_char p e == x then e ∷ with_letter p x entries else with_letter p x entries

abbrev pub Capital : ℕ → Type 0
Capital c = (65 ≤ c) × (c < 91)

-- Behind the prefix each of these commands goes on with a capital letter.
abbrev pub GoOn : Text → List Entry → Type 0
GoOn p entries = All (λ e. Capital (next_char p e)) entries

capital_table : right_table 256 (λ c. not (is_capital c) || (to_upper c == c)) ≡ true
unfolding right_table to_upper
capital_table = refl

fold_table :
    right_table 256 (λ r.
      (not (is_capital (to_upper r)) || (to_upper r == upper_bits r))
      && (not (is_capital (upper_bits r)) || (upper_bits r == to_upper r)))
    ≡ true
unfolding right_table to_upper
fold_table = refl

to_upper-Capital : (y : ℕ) → Capital y → to_upper y ≡ y
to_upper-Capital y (l, u) =
    let at =
      right_table_at 256 (λ c. not (is_capital c) || (to_upper c == c)) y capital_table
        (omega arith) in
    ground arith

-- `r &= 0xdf` and the tables agree on which capital letter a character is.
is_zero-Capital : (y r : ℕ) → Capital y → r < 256 → is_zero (difference y r) ≡ (y == upper_bits r)
is_zero-Capital y r (l, u) h =
    let own = to_upper-Capital y (l, u) in
    let at =
      right_table_at 256
        (λ r.
          (not (is_capital (to_upper r)) || (to_upper r == upper_bits r))
          && (not (is_capital (upper_bits r)) || (upper_bits r == to_upper r)))
        r fold_table h in
    ground (arith, own, at)

same_name-letter :
    (y r : ℕ) (s t : Text)
    → Capital y
    → r < 256
    → same_name (y ∷ s) (r ∷ t) ≡ (if y == upper_bits r then same_name s t else false)
unfolding same_name irccmp
same_name-letter y r s t c h = elim (Bool-cases (y == upper_bits r)) [
  | inl e ↦ rw (e, is_zero-Capital y r c h ∙ e) refl
  | inr e ↦ rw (e, is_zero-Capital y r c h ∙ e) (is_zero-Capital y r c h ∙ e)
]

upper_nul : to_upper 0 ≡ 0
unfolding to_upper
upper_nul = refl

pub same_name-nil : (y : ℕ) (s : Text) → Capital y → same_name (y ∷ s) [] ≡ false
unfolding same_name irccmp
same_name-nil y s c = let own = to_upper-Capital y c in ground (arith, own, upper_nul, c)

-- A command that goes on behind n letters is that letter and the rest.
pub drop_step : (n : ℕ) (s : Text) → 0 < get_or s n 0 → drop n s ≡ get_or s n 0 ∷ drop (suc n) s
drop_step zero [] h = absurd (omega arith)
drop_step zero (c ∷ s) h = refl
drop_step (suc n) [] h = absurd (omega arith)
drop_step (suc n) (c ∷ s) h = drop_step n s h

find-nil : (p : Text) (entries : List Entry) → GoOn p entries → find (length p) entries [] ≡ none
find-nil p [] g = refl
find-nil p (e ∷ entries) g =
    rw
      (
        drop_step (length p) e.cmd (omega (arith, g.0)),
        same_name-nil (next_char p e) (drop (suc (length p)) e.cmd) g.0,
      )
      (find-nil p entries g.1)

pub find-letter :
    (p : Text) (entries : List Entry) (r : ℕ) (s : Text)
    → GoOn p entries
    → r < 256
    → find (length p) entries (r ∷ s)
      ≡ find (suc (length p)) (with_letter p (upper_bits r) entries) s
find-letter p [] r s g h = refl
find-letter p (e ∷ entries) r s g h =
    let step =
      ap (λ x. same_name x (r ∷ s)) (drop_step (length p) e.cmd (omega (arith, g.0)))
      ∙ same_name-letter (next_char p e) r (drop (suc (length p)) e.cmd) s g.0 h in
    elim (Bool-cases (next_char p e == upper_bits r)) [
      | inl t ↦
          rw (step, t)
            (ap (λ o. if same_name (drop (suc (length p)) e.cmd) s then some e.msg else o)
              (find-letter p entries r s g.1 h))
      | inr f ↦ rw (step, f) (find-letter p entries r s g.1 h)
    ]

-- What is found from a node on.
abbrev pub answer : MessageTree → Text → Option ℕ
answer t s = visit t s (walk (pointers_of t) s)

-- The pointers lead to the entries of their letters.
abbrev pub Points : (ℕ → MessageTree) → Text → List Entry → Type 0
Points pointers p entries =
    (i : ℕ) (s : Text)
    → All IsChar s
    → answer (pointers i) s ≡ find (suc (length p)) (with_letter p (b'A' + i) entries) s

no_capital :
    (p : Text) (x : ℕ) (entries : List Entry)
    → is_capital x ≡ false
    → GoOn p entries
    → with_letter p x entries ≡ []
no_capital p x [] f g = refl
no_capital p x (e ∷ entries) f g =
    let other : (next_char p e == x) ≡ false = ground (arith, g.0, f) in
    rw other (no_capital p x entries f g.1)

pub walk-find :
    (pointers : ℕ → MessageTree) (p : Text) (entries : List Entry) (s : Text)
    → Points pointers p entries
    → GoOn p entries
    → All IsChar s
    → walk pointers s ≡ find (length p) entries s
unfolding walk
walk-find pointers p entries [] q g h = sym (find-nil p entries g)
walk-find pointers p entries (r ∷ s) q g h = elim (Bool-cases (is_capital (upper_bits r))) [
  | inl t ↦
      let back : b'A' + (upper_bits r - b'A') ≡ upper_bits r = ground (arith, t) in
      rw t (
        q (upper_bits r - b'A') s h.1
        ∙ ap (λ x. find (suc (length p)) (with_letter p x entries) s) back
        ∙ sym (find-letter p entries r s g h.0.1))
  | inr f ↦ rw f (
      ap (λ l. find (suc (length p)) l s) (sym (no_capital p (upper_bits r) entries f g))
      ∙ sym (find-letter p entries r s g h.0.1))
]
