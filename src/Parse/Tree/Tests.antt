-- ===== src/Parse/Tree/Tests.antt =====
-- The prefix tree of src/parse.c on a table of four commands.
use igniteircd.Prelude.{◌≡◌, some, ◌∷◌, codes, arith}
use igniteircd.Parse.Tree.{MessageTree, init_tree_parse, tree_parse}
use igniteircd.Parse.Tree.Build.{tree_parse_lem, find_command}
use igniteircd.Parse.Tree.Samples.{nick, notice, others, sorted, capital, short}

tree_parse_lem_example :
    (t : MessageTree) × (init_tree_parse (nick ∷ notice ∷ others) ≡ some t)
    × (tree_parse t (codes "operWall") ≡ find_command (nick ∷ notice ∷ others) (codes "operWall"))
tree_parse_lem_example =
    tree_parse_lem nick notice others (codes "operWall") sorted capital short (omega arith)
      (ground arith)
