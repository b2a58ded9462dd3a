-- ===== src/Parse/Tree/Order.antt =====
-- A table of commands in the order of strcmp, and the entries of one prefix in it.
use igniteircd.Prelude.{
  ℕ, zero, suc, ◌+◌, ◌≤◌, ◌<◌, ◌≡◌, ◌≢◌, refl, sym, ap, subst, ◌∙◌, inl, inr, Bool, true, false,
  List, [], ◌∷◌, ◌++◌, Text, length, drop, get_or, ◌==◌, ltb, if◌then◌else◌, Bool-cases, All, arith,
}
use mathlib.Core.Bool.{false≢true}
use igniteircd.Parse.Tree.{Entry, starts}

-- `strcmp(s, t) < 0`
abbrev pub text_lt : Text → Text → Bool
text_lt s [] = false
text_lt [] (d ∷ t) = true
text_lt (c ∷ s) (d ∷ t) = if c == d then text_lt s t else ltb c d

abbrev pub Below : Entry → Entry → Type 0
Below e d = text_lt e.cmd d.cmd ≡ true

-- Strictly increasing, as each entry is below all behind it.
abbrev pub IsSorted : List Entry → Type 0
IsSorted [] = Unit
IsSorted (e ∷ entries) = All (Below e) entries × IsSorted entries

-- The entries at the front that have the prefix, and what is behind them.
abbrev pub run : Text → List Entry → List Entry
run p [] = []
run p (e ∷ entries) = if starts p e.cmd then e ∷ run p entries else []

abbrev pub beyond : Text → List Entry → List Entry
beyond p [] = []
beyond p (e ∷ entries) = if starts p e.cmd then beyond p entries else e ∷ entries

-- The prefix with one more letter.
abbrev pub longer : Text → ℕ → Text
longer p c = p ++ c ∷ []

abbrev pub next_char : Text → Entry → ℕ
next_char p e = get_or e.cmd (length p) 0

pub starts-longer : (p s : Text) (c : ℕ) → starts (longer p c) s ≡ true → starts p s ≡ true
unfolding starts
starts-longer [] s c h = refl
starts-longer (a ∷ p) [] c h = h
starts-longer (a ∷ p) (b ∷ s) c h = elim (Bool-cases (a == b)) [
  | inl t ↦ rw t (starts-longer p s c (ground (arith, h, t)))
  | inr f ↦ absurd (ground (arith, h, f))
]

-- The next letter, for texts that go on behind the prefix.
pub starts-longer_char :
    (p s : Text) (c : ℕ) → starts (longer p c) s ≡ true → get_or s (length p) 0 ≡ c
unfolding starts
starts-longer_char [] [] c h = cc
starts-longer_char [] (b ∷ s) c h = ground arith
starts-longer_char (a ∷ p) [] c h = cc
starts-longer_char (a ∷ p) (b ∷ s) c h = elim (Bool-cases (a == b)) [
  | inl t ↦ starts-longer_char p s c (ground (arith, h, t))
  | inr f ↦ absurd (ground (arith, h, f))
]

pub char-starts-longer :
    (p s : Text) (c : ℕ)
    → 0 < c
    → starts p s ≡ true
    → get_or s (length p) 0 ≡ c
    → starts (longer p c) s ≡ true
unfolding starts
char-starts-longer [] [] c k h e = absurd (omega arith)
char-starts-longer [] (b ∷ s) c k h e = ground arith
char-starts-longer (a ∷ p) [] c k h e = h
char-starts-longer (a ∷ p) (b ∷ s) c k h e = elim (Bool-cases (a == b)) [
  | inl t ↦ rw t (char-starts-longer p s c k (ground (arith, h, t)) e)
  | inr f ↦ absurd (ground (arith, h, f))
]

-- Behind the prefix the order is that of the rests.
pub text_lt-drop :
    (p s t : Text)
    → starts p s ≡ true
    → starts p t ≡ true
    → text_lt s t ≡ true
    → text_lt (drop (length p) s) (drop (length p) t) ≡ true
unfolding starts
text_lt-drop [] s t hs ht h = h
text_lt-drop (a ∷ p) [] t hs ht h = cc
text_lt-drop (a ∷ p) (b ∷ s) [] hs ht h = cc
text_lt-drop (a ∷ p) (b ∷ s) (c ∷ t) hs ht h =
    let hb : a ≡ b = ground (arith, hs) in
    let hc : a ≡ c = ground (arith, ht) in
    text_lt-drop p s t (ground (arith, hs)) (ground (arith, ht)) (ground (arith, h, hb, hc))

text_lt-first : (s t : Text) → text_lt s t ≡ true → get_or s 0 0 ≤ get_or t 0 0
text_lt-first s [] h = cc
text_lt-first [] (d ∷ t) h = omega arith
text_lt-first (c ∷ s) (d ∷ t) h = ground arith

get_or-drop : (n : ℕ) (s : Text) → get_or (drop n s) 0 0 ≡ get_or s n 0
get_or-drop zero [] = refl
get_or-drop zero (c ∷ s) = refl
get_or-drop (suc n) [] = refl
get_or-drop (suc n) (c ∷ s) = get_or-drop n s

-- Of two texts with the prefix, the lower one has no greater letter behind it.
pub next_char-le :
    (p : Text) (e d : Entry)
    → starts p e.cmd ≡ true
    → starts p d.cmd ≡ true
    → Below e d
    → next_char p e ≤ next_char p d
next_char-le p e d he hd h =
    let first =
      text_lt-first (drop (length p) e.cmd) (drop (length p) d.cmd)
        (text_lt-drop p e.cmd d.cmd he hd h) in
    omega (arith, first, get_or-drop (length p) e.cmd, get_or-drop (length p) d.cmd)

-- All entries of the run have at least this letter.
abbrev pub From : Text → ℕ → List Entry → Type 0
From p c entries = All (λ e. c ≤ next_char p e) (run p entries)

From-above :
    (p : Text) (c : ℕ) (e : Entry) (entries : List Entry)
    → starts p e.cmd ≡ true
    → c ≤ next_char p e
    → All (Below e) entries
    → From p c entries
From-above p c e [] h k b = tt
From-above p c e (d ∷ entries) h k b = elim (Bool-cases (starts p d.cmd)) [
  | inl t ↦ rw t (omega (arith, next_char-le p e d h t b.0, k), From-above p c e entries h k b.1)
  | inr f ↦ rw f tt
]

-- If the first entry has at least this letter, all entries of the run do.
pub From-head :
    (p : Text) (c : ℕ) (e : Entry) (entries : List Entry)
    → IsSorted (e ∷ entries)
    → starts p e.cmd ≡ true
    → c ≤ next_char p e
    → From p c (e ∷ entries)
From-head p c e entries s h k = rw h (k, From-above p c e entries h k s.0)

pub IsSorted-beyond :
    (p : Text) (entries : List Entry) → IsSorted entries → IsSorted (beyond p entries)
IsSorted-beyond p [] s = tt
IsSorted-beyond p (e ∷ entries) s = elim (Bool-cases (starts p e.cmd)) [
  | inl t ↦ rw t (IsSorted-beyond p entries s.1)
  | inr f ↦ rw f s
]

pub beyond-longer :
    (p : Text) (c : ℕ) (entries : List Entry)
    → beyond p (beyond (longer p c) entries) ≡ beyond p entries
beyond-longer p c [] = refl
beyond-longer p c (e ∷ entries) = elim (Bool-cases (starts (longer p c) e.cmd)) [
  | inl t ↦ rw (t, starts-longer p e.cmd c t) (beyond-longer p c entries)
  | inr f ↦ rw f refl
]

-- A run is the run of its first letter, and a run of the rest.
pub run-longer :
    (p : Text) (c : ℕ) (entries : List Entry)
    → run p entries ≡ run (longer p c) entries ++ run p (beyond (longer p c) entries)
run-longer p c [] = refl
run-longer p c (e ∷ entries) = elim (Bool-cases (starts (longer p c) e.cmd)) [
  | inl t ↦ rw (t, starts-longer p e.cmd c t) (ap (◌∷◌ e) (run-longer p c entries))
  | inr f ↦ rw f refl
]

pub run-head :
    (p : Text) (e : Entry) (entries : List Entry)
    → starts p e.cmd ≡ true
    → run p (e ∷ entries) ≡ e ∷ run p entries
run-head p e entries t = rw t refl

pub From-parts :
    (p : Text) (c : ℕ) (e : Entry) (entries : List Entry)
    → starts p e.cmd ≡ true
    → From p c (e ∷ entries)
    → (c ≤ next_char p e) × From p c entries
From-parts p c e entries t h = subst (All (λ e. c ≤ next_char p e)) (run-head p e entries t) h

-- Behind the run of a letter come greater ones.
pub From-beyond :
    (p : Text) (c : ℕ) (entries : List Entry)
    → 0 < c
    → IsSorted entries
    → From p c entries
    → From p (c + 1) (beyond (longer p c) entries)
From-beyond p c [] k s h = tt
From-beyond p c (e ∷ entries) k s h = elim (Bool-cases (starts (longer p c) e.cmd)) [
  | inl t ↦
      let here : starts p e.cmd ≡ true = starts-longer p e.cmd c t in
      let own : next_char p e ≡ c = starts-longer_char p e.cmd c t in
      rw t (From-beyond p c entries k s.1 (From-above p c e entries here (omega (arith, own)) s.0))
  | inr f ↦ rw f (elim (Bool-cases (starts p e.cmd)) [
    | inr g ↦ rw g tt
    | inl t ↦
        let at_least : c ≤ next_char p e = (From-parts p c e entries t h).0 in
        let other : next_char p e ≢ c =
          λ q. false≢true (sym f ∙ char-starts-longer p e.cmd c k t q) in
        From-head p (c + 1) e entries s t (ground (arith, at_least, other))
  ])
]
