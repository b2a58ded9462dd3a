-- ===== src/Parse/Tree/Letter.antt =====
-- One letter of do_msg_tree in src/parse.c: which entries it stands for.
use igniteircd.Prelude.{
  ℕ, zero, suc, ◌+◌, ◌≤◌, ◌<◌, ◌≡◌, ◌≢◌, refl, sym, ap, ◌∙◌, inl, inr, false, List, [], ◌∷◌, ◌++◌,
  Text, length, get_or, ◌==◌, Bool-cases, All, arith, ==-refl, length-append,
}
use mathlib.Core.Path.{ap₂}
use igniteircd.Chars.Tables.{IsChar}
use igniteircd.Parse.Tree.{Entry, MessageTree, starts, visit, Built, built, point, no_pointers}
use igniteircd.Parse.Tree.Order.{
  next_char, run, beyond, From, longer, run-longer, starts-longer_char,
}
use igniteircd.Parse.Tree.Visit.{find, with_letter, Capital, answer, Points}

abbrev pub AllCapital : List Entry → Type 0
AllCapital entries = All (λ e. All Capital e.cmd) entries

pub AllCapital-beyond :
    (p : Text) (entries : List Entry) → AllCapital entries → AllCapital (beyond p entries)
AllCapital-beyond p [] a = tt
AllCapital-beyond p (e ∷ entries) a = elim (Bool-cases (starts p e.cmd)) [
  | inl t ↦ rw t (AllCapital-beyond p entries a.1)
  | inr f ↦ rw f a
]

pub get_or-Capital : (s : Text) (n : ℕ) → All Capital s → get_or s n 0 < 91
get_or-Capital [] n a = omega arith
get_or-Capital (c ∷ s) zero a = a.0.1
get_or-Capital (c ∷ s) (suc n) a = get_or-Capital s n a.1

-- The calls for longer prefixes give these trees.
abbrev pub Grows : (Text → List Entry → Built) → Text → List Entry → Type 0
Grows build p entries =
    (t : MessageTree) × (build p entries ≡ built t (beyond p entries))
    × ((s : Text) → All IsChar s → answer t s ≡ find (length p) (run p entries) s)

abbrev pub Fits : ℕ → Text → List Entry → Type 0
Fits room p entries = All (λ e. length e.cmd < length p + room) entries

pub Fits-beyond :
    (room : ℕ) (p q : Text) (entries : List Entry)
    → Fits room p entries
    → Fits room p (beyond q entries)
Fits-beyond room p q [] a = tt
Fits-beyond room p q (e ∷ entries) a = elim (Bool-cases (starts q e.cmd)) [
  | inl t ↦ rw t (Fits-beyond room p q entries a.1)
  | inr f ↦ rw f a
]

pub length-longer : (p : Text) (c : ℕ) → length (longer p c) ≡ suc (length p)
length-longer p c = omega (arith, length-append p (c ∷ []))

pub Fits-longer :
    (room : ℕ) (p : Text) (c : ℕ) (entries : List Entry)
    → Fits (suc room) p entries
    → Fits room (longer p c) entries
Fits-longer room p c [] a = tt
Fits-longer room p c (e ∷ entries) a =
    (omega (arith, length-longer p c, a.0), Fits-longer room p c entries a.1)

-- All entries of the run of a longer prefix have its letter.
with_letter-own :
    (p : Text) (c : ℕ) (entries : List Entry)
    → with_letter p c (run (longer p c) entries) ≡ run (longer p c) entries
with_letter-own p c [] = refl
with_letter-own p c (e ∷ entries) = elim (Bool-cases (starts (longer p c) e.cmd)) [
  | inl t ↦
      rw (t, starts-longer_char p e.cmd c t, ==-refl c) (ap (◌∷◌ e) (with_letter-own p c entries))
  | inr f ↦ rw f refl
]

with_letter-other :
    (p : Text) (c x : ℕ) (entries : List Entry)
    → c ≢ x
    → with_letter p x (run (longer p c) entries) ≡ []
with_letter-other p c x [] n = refl
with_letter-other p c x (e ∷ entries) n = elim (Bool-cases (starts (longer p c) e.cmd)) [
  | inl t ↦
      let differs : (next_char p e == x) ≡ false =
        ground (arith, starts-longer_char p e.cmd c t, n) in
      rw (t, differs) (with_letter-other p c x entries n)
  | inr f ↦ rw f refl
]

with_letter-above :
    (p : Text) (c : ℕ) (xs : List Entry)
    → All (λ e. c + 1 ≤ next_char p e) xs
    → with_letter p c xs ≡ []
with_letter-above p c [] a = refl
with_letter-above p c (e ∷ xs) a =
    let differs : (next_char p e == c) ≡ false = ground (arith, a.0) in
    rw differs (with_letter-above p c xs a.1)

with_letter-append :
    (p : Text) (x : ℕ) (xs ys : List Entry)
    → with_letter p x (xs ++ ys) ≡ with_letter p x xs ++ with_letter p x ys
with_letter-append p x [] ys = refl
with_letter-append p x (e ∷ xs) ys = elim (Bool-cases (next_char p e == x)) [
  | inl t ↦ rw t (ap (◌∷◌ e) (with_letter-append p x xs ys))
  | inr f ↦ rw f (with_letter-append p x xs ys)
]

append-[] : (xs : List Entry) → xs ++ [] ≡ xs
append-[] [] = refl
append-[] (e ∷ xs) = ap (◌∷◌ e) (append-[] xs)

-- The entries of a letter: its own run, and none of what follows; for another letter only those
-- that follow.
with_letter-run :
    (p : Text) (c : ℕ) (entries : List Entry)
    → All (λ e. c + 1 ≤ next_char p e) (run p (beyond (longer p c) entries))
    → with_letter p c (run p entries) ≡ run (longer p c) entries
with_letter-run p c entries a =
    ap (with_letter p c) (run-longer p c entries)
    ∙ with_letter-append p c (run (longer p c) entries) (run p (beyond (longer p c) entries))
    ∙ ap₂ ◌++◌ (with_letter-own p c entries)
        (with_letter-above p c (run p (beyond (longer p c) entries)) a)
    ∙ append-[] (run (longer p c) entries)

with_letter-run_other :
    (p : Text) (c x : ℕ) (entries : List Entry)
    → c ≢ x
    → with_letter p x (run p entries) ≡ with_letter p x (run p (beyond (longer p c) entries))
with_letter-run_other p c x entries n =
    ap (with_letter p x) (run-longer p c entries)
    ∙ with_letter-append p x (run (longer p c) entries) (run p (beyond (longer p c) entries))
    ∙ ap (λ l. l ++ with_letter p x (run p (beyond (longer p c) entries)))
        (with_letter-other p c x entries n)

-- A letter whose tree holds its entries, before the letters behind it.
pub Points-point :
    (p : Text) (i : ℕ) (t : MessageTree) (pointers : ℕ → MessageTree) (entries : List Entry)
    → ((s : Text)
        → All IsChar s
        → answer t s ≡ find (length (longer p (b'A' + i))) (run (longer p (b'A' + i)) entries) s)
    → From p (b'A' + i + 1) (beyond (longer p (b'A' + i)) entries)
    → Points pointers p (run p (beyond (longer p (b'A' + i)) entries))
    → Points (point i t pointers) p (run p entries)
unfolding point
Points-point p i t pointers entries own above later j s h = elim (Bool-cases (j == i)) [
  | inl e ↦
      let same : j ≡ i = ground arith in
      rw e (
        own s h
        ∙ ap (λ n. find n (run (longer p (b'A' + i)) entries) s) (length-longer p (b'A' + i))
        ∙ ap (λ l. find (suc (length p)) l s) (sym (with_letter-run p (b'A' + i) entries above))
        ∙ ap (λ k. find (suc (length p)) (with_letter p (b'A' + k) (run p entries)) s) (sym same))
  | inr e ↦
      let apart : (b'A' + i) ≢ (b'A' + j) = ground (arith, e) in
      rw e (
        later j s h
        ∙ ap (λ l. find (suc (length p)) l s)
            (sym (with_letter-run_other p (b'A' + i) (b'A' + j) entries apart)))
]

pub Points-nothing : (p : Text) → Points no_pointers p []
unfolding visit
Points-nothing p j s h = refl
