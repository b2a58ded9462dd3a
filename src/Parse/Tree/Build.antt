-- ===== src/Parse/Tree/Build.antt =====
-- The tree that do_msg_tree of src/parse.c makes, and what tree_parse finds in it.
use igniteircd.Prelude.{
  ℕ, ◌<◌, ◌≡◌, refl, ap, ◌∙◌, false, Option, none, some, List, [], ◌∷◌, Text, length, if◌then◌else◌,
  All, arith,
}
use igniteircd.Chars.Tables.{IsChar}
use igniteircd.Mask.Compare.{same_name}
use igniteircd.Parse.Tree.{
  Entry, MessageTree, node, no_final, starts, goes_on, pointers_of, built, branch, do_msg_tree,
  newpref_size, whole_table, init_tree_parse, tree_parse,
}
use igniteircd.Parse.Tree.Order.{run, beyond, longer, IsSorted}
use igniteircd.Parse.Tree.Visit.{same_name-nil, find, Capital}
use igniteircd.Parse.Tree.Letter.{AllCapital}
use igniteircd.Parse.Tree.Loop.{IsTable}
use igniteircd.Parse.Tree.Grow.{no_final-Grows, do_msg_tree-Grows}

run-nil : (entries : List Entry) → run [] entries ≡ entries
unfolding starts
run-nil [] = refl
run-nil (e ∷ entries) = ap (◌∷◌ e) (run-nil entries)

beyond-nil : (entries : List Entry) → beyond [] entries ≡ []
unfolding starts
beyond-nil [] = refl
beyond-nil (e ∷ entries) = beyond-nil entries

-- The first entry whose command is the text up to case.
abbrev pub find_command : List Entry → Text → Option ℕ
find_command [] s = none
find_command (e ∷ entries) s = if same_name e.cmd s then some e.msg else find_command entries s

find_command_lem : (entries : List Entry) (s : Text) → find 0 entries s ≡ find_command entries s
find_command_lem [] s = refl
find_command_lem (e ∷ entries) s =
    ap (λ o. if same_name e.cmd s then some e.msg else o) (find_command_lem entries s)

whole_table_lem :
    (t : MessageTree) (left : List Entry) → left ≡ [] → whole_table (built t left) ≡ some t
unfolding whole_table
whole_table_lem t [] e = refl
whole_table_lem t (d ∷ left) e = cc

not_empty : (s : Text) → All Capital s → 0 < length s → same_name s [] ≡ false
not_empty [] a h = absurd (omega arith)
not_empty (c ∷ s) a h = same_name-nil c s a.0

-- For a table of two or more commands in capital letters, strictly in the order of strcmp, none
-- of them empty and each shorter than newpref, init_tree_parse makes a tree, and tree_parse finds
-- in it the entry that a search through the table finds by irccmp. The text looked for holds
-- bytes and no NUL.
pub tree_parse_lem :
    (e d : Entry) (entries : List Entry) (s : Text)
    → IsSorted (e ∷ d ∷ entries)
    → AllCapital (e ∷ d ∷ entries)
    → All (λ e. length e.cmd < newpref_size) (e ∷ d ∷ entries)
    → 0 < length e.cmd
    → All IsChar s
    → (t : MessageTree) × (init_tree_parse (e ∷ d ∷ entries) ≡ some t)
      × (tree_parse t s ≡ find_command (e ∷ d ∷ entries) s)
unfolding init_tree_parse do_msg_tree branch starts goes_on tree_parse pointers_of
tree_parse_lem e d entries s sorted capital short some_letter hs =
    let f = not_empty e.cmd capital.0 some_letter in
    let h : IsTable 64 [] (e ∷ d ∷ entries) = record {
      sorted = sorted;
      capital = capital;
      fits = short;
    } in
    let (pointers, made, found) =
      no_final-Grows (do_msg_tree 63) 63 [] e (d ∷ entries) h refl f
        (λ c later h' g'. do_msg_tree-Grows 63 (longer [] c) later h' g') in
    let t = node no_final 0 pointers in
    (
      t,
      rw f (
          ap whole_table made
          ∙ whole_table_lem t (beyond [] (d ∷ entries)) (beyond-nil (d ∷ entries))),
      found s hs
          ∙ ap (λ l. find 0 (e ∷ l) s) (run-nil (d ∷ entries))
          ∙ find_command_lem (e ∷ d ∷ entries) s,
    )
