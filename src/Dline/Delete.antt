-- ===== src/Dline/Delete.antt =====
-- The node that takes the place of a removed one in src/dline_conf.c.
use igniteircd.Prelude.{ℕ, suc, ◌+◌, ◌≡◌, ◌<◌, ◌≤◌, Bool, true, false, ◌==◌, if◌then◌else◌, arith}
use igniteircd.Dline.{Node, IpSubtree, leaf, branch, last_right, last_left, replace_head}

-- The number of D-lines in a tree.
abbrev pub size : IpSubtree → ℕ
size leaf = 0
size (branch n left right) = suc (size left + size right)

abbrev pub is_leaf : IpSubtree → Bool
is_leaf leaf = true
is_leaf (branch n left right) = false

size-last_right : (n : Node) (l r : IpSubtree) → size ((last_right n l r).1) ≤ size l + size r
unfolding last_right
size-last_right n l leaf = omega arith
size-last_right n l (branch k a b) = omega (arith, size-last_right k a b)

size-last_left : (n : Node) (l r : IpSubtree) → size ((last_left n l r).1) ≤ size l + size r
unfolding last_left
size-last_left n leaf r = omega arith
size-last_left n (branch k a b) r = omega (arith, size-last_left k a b)

fewer : (a b : ℕ) → a < b → (a == b) ≡ false
fewer a b h = ground (arith, h)

-- When a D-line with two children is removed from its tree, all D-lines below it are kept only if
-- the child that the coin chooses is itself the one to be moved up: the left child has no right
-- child, or the right one no left child. Else fewer are left, as the code drops all between the
-- removed node and the one that is moved up.
pub replace_head-loses :
    (coin : Bool) (n m : Node) (l r s t : IpSubtree)
    → (size (replace_head coin (branch n l r) (branch m s t))
        == size (branch n l r) + size (branch m s t))
      ≡ is_leaf (if coin then r else s)
unfolding replace_head last_right last_left
replace_head-loses true n m l leaf s t = ground arith
replace_head-loses true n m l (branch k a b) s t = fewer _ _ (omega (arith, size-last_right k a b))
replace_head-loses false n m l r leaf t = ground arith
replace_head-loses false n m l r (branch k a b) t = fewer _ _ (omega (arith, size-last_left k a b))
