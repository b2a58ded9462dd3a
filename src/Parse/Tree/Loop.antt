-- ===== src/Parse/Tree/Loop.antt =====
-- The loop of do_msg_tree in src/parse.c over the letters.
use igniteircd.Prelude.{
  ℕ, zero, suc, ◌+◌, ◌-◌, ◌≤◌, ◌≡◌, refl, sym, ap, subst, ◌∙◌, inl, inr, true, false, List, [], ◌∷◌,
  Text, length, ◌==◌, Bool-cases, All, arith,
}
use mathlib.Core.Bool.{false≢true}
use igniteircd.Chars.Tables.{IsChar}
use igniteircd.Parse.Tree.{
  Entry, MessageTree, goes_on, letter_at, Built, built, Letters, letters, each_letter, after_letter,
  join_letters, point, no_pointers,
}
use igniteircd.Parse.Tree.Order.{
  next_char, run, beyond, From, longer, IsSorted, IsSorted-beyond, beyond-longer, From-head,
  From-parts, From-beyond, char-starts-longer,
}
use igniteircd.Parse.Tree.Visit.{find, answer, Points}
use igniteircd.Parse.Tree.Letter.{
  AllCapital, AllCapital-beyond, get_or-Capital, Grows, Fits, Fits-beyond, Fits-longer,
  Points-point, Points-nothing,
}

-- A table in order, of commands in capital letters, no longer than the prefix and the room.
pub record IsTable (room : ℕ) (p : Text) (entries : List Entry) : Type 0 where
  pub sorted : IsSorted entries
  pub capital : AllCapital entries
  pub fits : Fits room p entries

IsTable-beyond :
    (room : ℕ) (p q : Text) (entries : List Entry)
    → IsTable room p entries
    → IsTable room p (beyond q entries)
IsTable-beyond room p q entries h = record {
  sorted = IsSorted-beyond q entries h.sorted;
  capital = AllCapital-beyond q entries h.capital;
  fits = Fits-beyond room p q entries h.fits;
}

pub beyond-stop :
    (p : Text) (entries : List Entry) → goes_on p entries ≡ false → beyond p entries ≡ entries
unfolding goes_on
beyond-stop p [] f = refl
beyond-stop p (e ∷ entries) f = rw f refl

pub run-stop : (p : Text) (entries : List Entry) → goes_on p entries ≡ false → run p entries ≡ []
unfolding goes_on
run-stop p [] f = refl
run-stop p (e ∷ entries) f = rw f refl

-- What the loop over the letters makes of the entries.
abbrev pub Done : Text → List Entry → Letters → Type 0
Done p entries l =
    (pointers : ℕ → MessageTree) × (l ≡ letters pointers (beyond p entries))
    × Points pointers p (run p entries)

join_letters-Done :
    (p : Text) (i : ℕ) (t : MessageTree) (entries : List Entry) (l : Letters)
    → ((s : Text)
        → All IsChar s
        → answer t s ≡ find (length (longer p (b'A' + i))) (run (longer p (b'A' + i)) entries) s)
    → From p (b'A' + i + 1) (beyond (longer p (b'A' + i)) entries)
    → Done p (beyond (longer p (b'A' + i)) entries) l
    → Done p entries (join_letters i t l)
unfolding join_letters
join_letters-Done p i t entries l own above (pointers, e, q) = rw e (
  point i t pointers,
  ap (letters (point i t pointers)) (beyond-longer p (b'A' + i) entries),
  Points-point p i t pointers entries own above q,
)

after_letter-Done :
    (p : Text) (i : ℕ) (next : List Entry → Letters) (entries : List Entry) (b : Built)
    (t : MessageTree)
    → b ≡ built t (beyond (longer p (b'A' + i)) entries)
    → ((s : Text)
        → All IsChar s
        → answer t s ≡ find (length (longer p (b'A' + i))) (run (longer p (b'A' + i)) entries) s)
    → From p (b'A' + i + 1) (beyond (longer p (b'A' + i)) entries)
    → (goes_on p (beyond (longer p (b'A' + i)) entries) ≡ true
        → Done p
            (beyond (longer p (b'A' + i)) entries)
            (next (beyond (longer p (b'A' + i)) entries)))
    → Done p entries (after_letter p i next b)
unfolding after_letter
after_letter-Done p i next entries b t e own above more =
    let left = beyond (longer p (b'A' + i)) entries in
    rw e (elim (Bool-cases (goes_on p left)) [
      | inl g ↦ rw g (join_letters-Done p i t entries (next left) own above (more g))
      | inr g ↦ rw g (
        point i t no_pointers,
        ap (letters (point i t no_pointers))
            (sym (beyond-stop p left g) ∙ beyond-longer p (b'A' + i) entries),
        Points-point p i t no_pointers entries own above
            (subst (Points no_pointers p) (sym (run-stop p left g)) (Points-nothing p)),
      )
    ])

pub each_letter-Done :
    (build : Text → List Entry → Built) (room : ℕ) (p : Text) (n : ℕ) (entries : List Entry)
    → n ≤ 26
    → IsTable (suc room) p entries
    → goes_on p entries ≡ true
    → From p (b'A' + (26 - n)) entries
    → ((c : ℕ) (later : List Entry)
        → IsTable room (longer p c) later
        → goes_on (longer p c) later ≡ true
        → Grows build (longer p c) later)
    → Done p entries (each_letter build p n entries)
unfolding each_letter goes_on letter_at
each_letter-Done build room p n [] k h g from grows = absurd (false≢true g)
each_letter-Done build room p zero (e ∷ entries) k h g from grows = absurd (
    omega
      (arith, get_or-Capital e.cmd (length p) h.capital.0, (From-parts p 91 e entries g from).0))
each_letter-Done build room p (suc n) (e ∷ entries) k h g from grows =
    let i = 25 - n in
    let here : b'A' + (26 - suc n) ≡ b'A' + i = omega arith in
    let next : b'A' + i + 1 ≡ b'A' + (26 - n) = omega arith in
    let from_i = subst (λ c. From p c (e ∷ entries)) here from in
    elim (Bool-cases (next_char p e == b'A' + i)) [
      | inl t ↦
          let l = e ∷ entries in
          let left = beyond (longer p (b'A' + i)) l in
          let own : next_char p e ≡ b'A' + i = ground (arith, t) in
          let starts_longer = char-starts-longer p e.cmd (b'A' + i) (omega arith) g own in
          let h' : IsTable room (longer p (b'A' + i)) l = record {
            sorted = h.sorted;
            capital = h.capital;
            fits = Fits-longer room p (b'A' + i) l h.fits;
          } in
          let (tree, made, good) = grows (b'A' + i) l h' starts_longer in
          let above = From-beyond p (b'A' + i) l (omega arith) h.sorted from_i in
          rw t (
            after_letter-Done p i (each_letter build p n) l (build (longer p (b'A' + i)) l) tree
              made good above
              (λ g'.
                each_letter-Done build room p n left (omega arith)
                  (IsTable-beyond (suc room) p (longer p (b'A' + i)) l h) g'
                  (subst (λ c. From p c left) next above) grows))
      | inr f ↦
          let at_least = (From-parts p (b'A' + i) e entries g from_i).0 in
          let more : b'A' + (26 - n) ≤ next_char p e = ground (arith, at_least, f) in
          rw f (
            each_letter-Done build room p n (e ∷ entries) (omega arith) h g
              (From-head p (b'A' + (26 - n)) e entries h.sorted g more) grows)
    ]
