-- ===== src/Parse/Tree/Samples.antt =====
-- A table of commands, for the tests of the prefix tree of src/parse.c.
use igniteircd.Prelude.{◌<◌, ◌≡◌, refl, some, List, [], ◌∷◌, codes, arith, length, All}
use igniteircd.Parse.Tree.{
  Entry, MessageTree, node, no_final, rest, no_pointers, point, tree_parse, walk, visit,
  pointers_of, newpref_size,
}
use igniteircd.Parse.Tree.Order.{IsSorted}
use igniteircd.Parse.Tree.Letter.{AllCapital}
use igniteircd.Chars.Tables.{to_upper}
use igniteircd.Mask.Compare.{same_name}

abbrev pub nick : Entry
nick = record { msg = 0; cmd = codes "NICK" }

abbrev pub notice : Entry
notice = record { msg = 1; cmd = codes "NOTICE" }

abbrev pub others : List Entry
others = record { msg = 2; cmd = codes "OPER" } ∷ record { msg = 3; cmd = codes "OPERWALL" } ∷ []

pub sorted : IsSorted (nick ∷ notice ∷ others)
sorted = ((refl, (refl, (refl, tt))), ((refl, (refl, tt)), ((refl, tt), (tt, tt))))

pub capital : AllCapital (nick ∷ notice ∷ others)
capital = ground arith

pub short : All (λ e. length e.cmd < newpref_size) (nick ∷ notice ∷ others)
short = ground arith

-- The tree for the one command NICK.
abbrev pub nick_tree : MessageTree
nick_tree = node no_final 0 (point 13 (node (rest (codes "ICK")) 0 no_pointers) no_pointers)

pub nick_found : tree_parse nick_tree (codes "Nick") ≡ some 0
unfolding tree_parse walk visit pointers_of point same_name to_upper
nick_found = refl
