-- ===== src/Parse/Tree/Grow.antt =====
-- do_msg_tree of src/parse.c makes a tree of the entries of each prefix.
use igniteircd.Prelude.{
  ℕ, zero, suc, ◌≤◌, ◌<◌, ◌≡◌, refl, sym, ap, subst, ◌∙◌, inl, inr, true, false, none, some, List,
  [], ◌∷◌, Text, length, drop, get_or, if◌then◌else◌, Bool-cases, All, arith,
}
use mathlib.Core.Bool.{false≢true}
use igniteircd.Chars.Tables.{IsChar}
use igniteircd.Mask.Compare.{same_name}
use igniteircd.Parse.Tree.{
  Entry, MessageTree, node, no_final, whole, rest, starts, goes_on, pointers_of, visit, walk, Built,
  built, Letters, each_letter, no_pointers, tree_of, branch, do_msg_tree, Final, is_end,
}
use igniteircd.Parse.Tree.Order.{
  text_lt, text_lt-drop, next_char, run, beyond, longer, run-head, Below,
}
use igniteircd.Parse.Tree.Visit.{same_name-nil, find, Capital, GoOn, answer, Points, walk-find}
use igniteircd.Mask.Compare.{irccmp, difference}
use igniteircd.Mask.Compare.Laws.{to_upper-pos, same_name_refl}
use igniteircd.Parse.Tree.Letter.{AllCapital, Grows}
use igniteircd.Parse.Tree.Loop.{IsTable, Done, each_letter-Done, run-stop, beyond-stop}
use igniteircd.Prelude.{is_zero}

same_name-prefix :
    (p s : Text) → starts p s ≡ true → same_name s p ≡ same_name (drop (length p) s) []
unfolding starts same_name irccmp
same_name-prefix [] s h = refl
same_name-prefix (a ∷ p) [] h = cc
same_name-prefix (a ∷ p) (b ∷ s) h =
    let same : a ≡ b = ground (arith, h) in
    let z : is_zero (difference b a) ≡ true = ground (arith, same) in
    rw z (same_name-prefix p s (ground (arith, h)))

-- A command is its prefix only if nothing is behind it.
ends_at : (n : ℕ) (s : Text) → All Capital s → same_name (drop n s) [] ≡ true → drop n s ≡ []
ends_at zero [] a h = refl
ends_at zero (c ∷ s) a h = absurd (false≢true (sym (same_name-nil c s a.0) ∙ h))
ends_at (suc n) [] a h = refl
ends_at (suc n) (c ∷ s) a h = ends_at n s a.1 h

goes_past :
    (n : ℕ) (s : Text) → All Capital s → same_name (drop n s) [] ≡ false → 0 < length (drop n s)
unfolding same_name irccmp
goes_past n s a h = at (drop n s) h
  where
    at : (t : Text) → same_name t [] ≡ false → 0 < length t
    at [] h = absurd (false≢true (sym h ∙ same_name_refl []))
    at (c ∷ t) h = omega arith

text_lt-length : (s t : Text) → text_lt s t ≡ true → 0 < length t
text_lt-length s [] h = cc
text_lt-length s (c ∷ t) h = omega arith

Capital-at : (n : ℕ) (s : Text) → 0 < length (drop n s) → All Capital s → Capital (get_or s n 0)
Capital-at zero [] h a = absurd (omega arith)
Capital-at zero (c ∷ s) h a = a.0
Capital-at (suc n) [] h a = absurd (omega arith)
Capital-at (suc n) (c ∷ s) h a = Capital-at n s h a.1

-- All entries of the run but the first go on behind the prefix.
GoOn-behind :
    (p : Text) (e : Entry) (entries : List Entry)
    → starts p e.cmd ≡ true
    → All (Below e) entries
    → AllCapital entries
    → GoOn p (run p entries)
GoOn-behind p e [] h b a = tt
GoOn-behind p e (d ∷ entries) h b a = elim (Bool-cases (starts p d.cmd)) [
  | inr f ↦ rw f tt
  | inl t ↦
      let past =
        text_lt-length (drop (length p) e.cmd) (drop (length p) d.cmd)
          (text_lt-drop p e.cmd d.cmd h t b.0) in
      rw t (Capital-at (length p) d.cmd past a.0, GoOn-behind p e entries h b.1 a.1)
]

GoOn-all : (p : Text) (xs : List Entry) → GoOn p xs → All (λ e. b'A' ≤ next_char p e) xs
GoOn-all p [] g = tt
GoOn-all p (e ∷ xs) g = (g.0.0, GoOn-all p xs g.1)

walk_nothing : (s : Text) → walk no_pointers s ≡ none
unfolding walk visit
walk_nothing [] = refl
walk_nothing (r ∷ s) = ground arith

same_name-end : (s : Text) → All IsChar s → same_name [] s ≡ is_end s
unfolding same_name irccmp
same_name-end [] h = same_name_refl []
same_name-end (c ∷ s) h = to_upper-pos c h.0

tree_of-Grows :
    (p : Text) (entries : List Entry) (f : Final) (m : ℕ) (l : Letters)
    → Done p entries l
    → (pointers : ℕ → MessageTree) × (tree_of f m l ≡ built (node f m pointers) (beyond p entries))
      × Points pointers p (run p entries)
unfolding tree_of
tree_of-Grows p entries f m l (pointers, e, q) = rw e (pointers, refl, q)

whole-answer :
    (p : Text) (e : Entry) (m : ℕ) (pointers : ℕ → MessageTree) (entries : List Entry) (s : Text)
    → m ≡ e.msg
    → drop (length p) e.cmd ≡ []
    → GoOn p entries
    → Points pointers p entries
    → All IsChar s
    → answer (node whole m pointers) s ≡ find (length p) (e ∷ entries) s
unfolding visit pointers_of
whole-answer p e m pointers entries s own nothing g q h =
    rw (nothing, same_name-end s h, own)
      (ap (λ o. if is_end s then some e.msg else o) (walk-find pointers p entries s q g h))

abbrev Grower : (Text → List Entry → Built) → ℕ → Text → Type 0
Grower build room p =
    (c : ℕ) (later : List Entry)
    → IsTable room (longer p c) later
    → goes_on (longer p c) later ≡ true
    → Grows build (longer p c) later

whole-Grows :
    (build : Text → List Entry → Built) (room : ℕ) (p : Text) (e : Entry) (entries : List Entry)
    → IsTable (suc room) p (e ∷ entries)
    → starts p e.cmd ≡ true
    → goes_on p entries ≡ true
    → drop (length p) e.cmd ≡ []
    → Grower build room p
    → (t : MessageTree) × (tree_of whole e.msg (each_letter build p 26 entries)
        ≡ built t (beyond p entries))
      × ((s : Text) → All IsChar s → answer t s ≡ find (length p) (e ∷ run p entries) s)
whole-Grows build room p e entries h g more nothing grows =
    let go_on = GoOn-behind p e entries g h.sorted.0 h.capital.1 in
    let h' : IsTable (suc room) p entries = record {
      sorted = h.sorted.1;
      capital = h.capital.1;
      fits = h.fits.1;
    } in
    let done =
      each_letter-Done build room p 26 entries (omega arith) h' more
        (GoOn-all p (run p entries) go_on) grows in
    let (pointers, made, q) =
      tree_of-Grows p entries whole e.msg (each_letter build p 26 entries) done in
    (
      node whole e.msg pointers,
      made,
      λ s hs. whole-answer p e e.msg pointers (run p entries) s refl nothing go_on q hs,
    )

-- The pointers of an ambiguous node without a command of its own.
pub no_final-Grows :
    (build : Text → List Entry → Built) (room : ℕ) (p : Text) (e : Entry) (entries : List Entry)
    → IsTable (suc room) p (e ∷ entries)
    → starts p e.cmd ≡ true
    → same_name e.cmd p ≡ false
    → Grower build room p
    → (pointers : ℕ → MessageTree) × (tree_of no_final 0 (each_letter build p 26 (e ∷ entries))
        ≡ built (node no_final 0 pointers) (beyond p entries))
      × ((s : Text) → All IsChar s → walk pointers s ≡ find (length p) (e ∷ run p entries) s)
unfolding goes_on
no_final-Grows build room p e entries h g f grows =
    let past = goes_past (length p) e.cmd h.capital.0 (sym (same_name-prefix p e.cmd g) ∙ f) in
    let go_on : GoOn p (e ∷ run p entries) = (
      Capital-at (length p) e.cmd past h.capital.0,
      GoOn-behind p e entries g h.sorted.0 h.capital.1,
    ) in
    let from =
      subst (All (λ e. b'A' ≤ next_char p e)) (sym (run-head p e entries g))
        (GoOn-all p (e ∷ run p entries) go_on) in
    let done = each_letter-Done build room p 26 (e ∷ entries) (omega arith) h g from grows in
    let (pointers, made, q) =
      tree_of-Grows p (e ∷ entries) no_final 0 (each_letter build p 26 (e ∷ entries)) done in
    let here : beyond p (e ∷ entries) ≡ beyond p entries = rw g refl in
    let q' = subst (Points pointers p) (run-head p e entries g) q in
    (
      pointers,
      made ∙ ap (built (node no_final 0 pointers)) here,
      λ s hs. walk-find pointers p (e ∷ run p entries) s q' go_on hs,
    )

branch-Grows :
    (build : Text → List Entry → Built) (room : ℕ) (p : Text) (e : Entry) (entries : List Entry)
    → IsTable (suc room) p (e ∷ entries)
    → starts p e.cmd ≡ true
    → goes_on p entries ≡ true
    → Grower build room p
    → (t : MessageTree) × (branch build p e entries ≡ built t (beyond p entries))
      × ((s : Text) → All IsChar s → answer t s ≡ find (length p) (e ∷ run p entries) s)
unfolding branch visit pointers_of no_final-Grows
branch-Grows build room p e entries h g more grows = elim (Bool-cases (same_name e.cmd p)) [
  | inl t ↦
      let nothing = ends_at (length p) e.cmd h.capital.0 (sym (same_name-prefix p e.cmd g) ∙ t) in
      rw t (whole-Grows build room p e entries h g more nothing grows)
  | inr f ↦
      let (pointers, made, found) = no_final-Grows build room p e entries h g f grows in
      rw f (node no_final 0 pointers, made, found)
]

leaf-answer :
    (p : Text) (e : Entry) (s : Text)
    → answer (node (rest (drop (length p) e.cmd)) e.msg no_pointers) s ≡ find (length p) (e ∷ []) s
unfolding visit pointers_of
leaf-answer p e s =
    ap (λ o. if same_name (drop (length p) e.cmd) s then some e.msg else o) (walk_nothing s)

length-starts : (p s : Text) → starts p s ≡ true → length p ≤ length s
unfolding starts
length-starts [] s h = omega arith
length-starts (a ∷ p) [] h = cc
length-starts (a ∷ p) (b ∷ s) h = omega (arith, length-starts p s (ground (arith, h)))

pub do_msg_tree-Grows :
    (fuel : ℕ) (p : Text) (entries : List Entry)
    → IsTable fuel p entries
    → goes_on p entries ≡ true
    → Grows (do_msg_tree fuel) p entries
unfolding do_msg_tree goes_on
do_msg_tree-Grows fuel p [] h g = absurd (false≢true g)
do_msg_tree-Grows zero p (e ∷ entries) h g =
    absurd (omega (arith, length-starts p e.cmd g, h.fits.0))
do_msg_tree-Grows (suc fuel) p (e ∷ entries) h g = elim (Bool-cases (goes_on p entries)) [
  | inl more ↦
      let (t, made, found) =
        branch-Grows (do_msg_tree fuel) fuel p e entries h g more
          (λ c later h' g'. do_msg_tree-Grows fuel (longer p c) later h' g') in
      rw (g, more) (t, made, found)
  | inr last ↦
      rw (g, last)
        (
          node (rest (drop (length p) e.cmd)) e.msg no_pointers,
          ap (built (node (rest (drop (length p) e.cmd)) e.msg no_pointers))
              (sym (beyond-stop p entries last)),
          λ s hs.
              leaf-answer p e s
              ∙ ap (λ l. find (length p) (e ∷ l) s) (sym (run-stop p entries last)),
        )
]
