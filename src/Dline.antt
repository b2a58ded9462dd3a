-- ===== src/Dline.antt =====
-- src/dline_conf.c: the D-lines, which ban addresses, and the exceptions to them. An address is a
-- number of 32 bits; a list of conf items is the items along `next`.
pub mod Find
pub mod Delete
pub mod Match
pub mod Kline
mod Tests
use igniteircd.Prelude.{
  ℕ, zero, suc, ◌+◌, ◌-◌, ◌/◌, ◌%◌, ◌^◌, Bool, true, false, not, ◌&&◌, ◌||◌, Option, none, some,
  List, [], ◌∷◌, ◌++◌, leb, ltb, ◌==◌, if◌then◌else◌, bit_and, bit_or,
}
use igniteircd.Channel.{set}

-- `is_e_lined` is the flag CONF_FLAGS_E_LINED, which exceptions have.
pub record Conf : Type 0 where
  pub ip : ℕ
  pub ip_mask : ℕ
  pub is_e_lined : Bool

pub record Node : Type 0 where
  pub ip : ℕ
  pub ip_mask : ℕ
  pub conf : List Conf

-- NULL is `leaf`.
pub data IpSubtree : Type 0 where
  leaf : IpSubtree
  branch : Node → IpSubtree → IpSubtree → IpSubtree

pub new_ip_subtree : ℕ → ℕ → List Conf → Node
new_ip_subtree ip mask clist = record { ip = bit_and ip mask; ip_mask = mask; conf = clist }

pub insert_ip_subtree : IpSubtree → Node → IpSubtree
insert_ip_subtree leaf n = branch n leaf leaf
insert_ip_subtree (branch head left right) n =
    let to_left = insert_ip_subtree left n in
    let to_right = insert_ip_subtree right n in
    if ltb n.ip head.ip then branch head to_left right else branch head left to_right

pub find_ip_subtree : IpSubtree → ℕ → Option Node
find_ip_subtree leaf ip = none
find_ip_subtree (branch cur left right) ip =
    let in_left = find_ip_subtree left ip in
    let in_right = find_ip_subtree right ip in
    if cur.ip == bit_and ip cur.ip_mask
    then some cur
    else if ltb (bit_and ip cur.ip_mask) cur.ip
    then in_left
    else in_right

-- `while (temp->right) temp=temp->right;`, and what the last one has on its left.
pub last_right : Node → IpSubtree → IpSubtree → Node × IpSubtree
last_right temp left leaf = (temp, left)
last_right temp left (branch n l r) = last_right n l r

-- `while (temp->left) temp=temp->left;`, and what the last one has on its right.
pub last_left : Node → IpSubtree → IpSubtree → Node × IpSubtree
last_left temp leaf right = (temp, right)
last_left temp (branch n l r) right = last_left n l r

-- What stands in the place of a head that is removed; `coin` is the comparison with rand().
-- The node that is moved up keeps its own child on the side that it comes from, as the code sets
-- only the other one.
pub replace_head : Bool → IpSubtree → IpSubtree → IpSubtree
replace_head coin leaf right = right
replace_head coin (branch n l r) leaf = branch n l r
replace_head true (branch n l r) (branch m s t) =
    let (temp, left) = last_right n l r in branch temp left (branch m s t)
replace_head false (branch n l r) (branch m s t) =
    let (temp, right) = last_left m s t in branch temp (branch n l r) right

-- The tree, `*clist`, and the number of calls of rand() so far.
pub record Deleted : Type 0 where
  pub tree : IpSubtree
  pub clist : List Conf
  pub calls : ℕ

-- Whether rand() is called for these two.
pub needs_coin : IpSubtree → IpSubtree → Bool
needs_coin leaf right = false
needs_coin (branch n l r) leaf = false
needs_coin (branch n l r) (branch m s t) = true

-- Behind the two recursive calls: `d` has the right subtree and the state after both.
pub delete_head : (ℕ → Bool) → Node → IpSubtree → Deleted → ℕ → ℕ → Deleted
delete_head rand head left d ip mask =
    if bit_and head.ip mask == ip
    then (if ltb head.ip_mask mask then record d { tree = branch head left d.tree } else record {
      tree = replace_head (rand d.calls) left d.tree;
      clist = head.conf ++ d.clist;
      calls = if needs_coin left d.tree then d.calls + 1 else d.calls;
    })
    else record d { tree = branch head left d.tree }

-- `rand` gives the outcome of each comparison with rand(), in their order.
pub delete_ip_subtree : (ℕ → Bool) → IpSubtree → ℕ → ℕ → List Conf → ℕ → Deleted
delete_ip_subtree rand leaf ip mask clist calls = record {
  tree = leaf;
  clist = clist;
  calls = calls;
}
delete_ip_subtree rand (branch head left right) ip mask clist calls =
    let masked = bit_and ip mask in
    let l = delete_ip_subtree rand left masked mask clist calls in
    let r = delete_ip_subtree rand right masked mask l.clist l.calls in
    delete_head rand head l.tree r masked mask

-- The tables Dline and oracle by the first byte, and the exceptions that have no D-line.
pub record State : Type 0 where
  pub dline : ℕ → IpSubtree
  pub oracle : ℕ → ℕ
  pub leftover : List Conf

-- `ip>>24`
abbrev pub first_byte : ℕ → ℕ
first_byte ip = ip / 2 ^ 24

pub find_exception : List Conf → ℕ → Option Conf
find_exception [] ip = none
find_exception (scan ∷ next) ip =
    let later = find_exception next ip in
    if scan.ip == bit_and ip scan.ip_mask then some scan else later

-- The first exception in the list of a D-line that has the address.
pub find_e_line : List Conf → ℕ → Option Conf
find_e_line [] ip = none
find_e_line (scan ∷ next) ip =
    let later = find_e_line next ip in
    if scan.is_e_lined && (scan.ip == bit_and ip scan.ip_mask) then some scan else later

-- Behind the scan for exceptions: the D-line itself, with its address masked.
pub first_conf : List Conf → ℕ → Option Conf
first_conf [] ip = none
first_conf (c ∷ conf) ip = if bit_and c.ip c.ip_mask == bit_and ip c.ip_mask then some c else none

pub or_first : Option Conf → List Conf → ℕ → Option Conf
or_first none conf ip = first_conf conf ip
or_first (some scan) conf ip = some scan

pub match_node : Option Node → ℕ → Option Conf
match_node none ip = none
match_node (some n) ip = or_first (find_e_line n.conf ip) n.conf ip

pub match_dline : State → ℕ → Option Conf
match_dline s ip =
    let head = first_byte ip in
    if not (bit_and (s.oracle head) ip == ip)
    then none
    else match_node (find_ip_subtree (s.dline head) ip) ip

-- The D-lines of a list are freed, the exceptions kept.
pub trim_dlines : List Conf → List Conf
trim_dlines [] = []
trim_dlines (cl ∷ next) =
    let trimmed = trim_dlines next in if cl.is_e_lined then cl ∷ trimmed else trimmed

-- `conf_ptr->next=node->conf->next; node->conf->next=conf_ptr;`, where `conf` is not NULL.
pub add_second : Conf → List Conf → List Conf
add_second c [] = c ∷ []
add_second c (d ∷ conf) = d ∷ c ∷ conf

-- The node that find_ip_subtree finds gets the exception.
pub add_to_found : Conf → IpSubtree → IpSubtree
add_to_found c leaf = leaf
add_to_found c (branch cur left right) =
    let in_left = add_to_found c left in
    let in_right = add_to_found c right in
    if cur.ip == bit_and c.ip cur.ip_mask
    then branch (record cur { conf = add_second c cur.conf }) left right
    else if ltb (bit_and c.ip cur.ip_mask) cur.ip
    then branch cur in_left right
    else branch cur left in_right

pub is_found : Option Node → Bool
is_found none = false
is_found (some n) = true

pub add_dline : State → Conf → State
add_dline s conf_ptr =
    let c = record conf_ptr { is_e_lined = true } in
    let head = first_byte c.ip in
    if is_found (find_ip_subtree (s.dline head) c.ip)
    then record s { dline = set s.dline head (add_to_found c (s.dline head)) }
    else record s { leftover = c ∷ s.leftover }

-- The exceptions that are still without a D-line, the last ones placed first.
pub rescan_dlines : State → List Conf → State × List Conf
rescan_dlines s [] = (s, [])
rescan_dlines s (c ∷ next) =
    let (s', left) = rescan_dlines s next in
    if is_found (find_ip_subtree (s'.dline (first_byte c.ip)) c.ip)
    then (add_dline s' c, left)
    else (s', c ∷ left)

-- `(node) && (node->ip_mask <= host_mask)`
pub is_broader : Option Node → ℕ → Bool
is_broader none mask = false
is_broader (some n) mask = leb n.ip_mask mask

pub is_excepted : Option Conf → Bool
is_excepted none = false
is_excepted (some c) = true

-- The D-line in the place of those that it covers, then the exceptions that it covers.
pub place_dline : (ℕ → Bool) → State → Conf → State
place_dline rand s conf_ptr =
    let head = first_byte conf_ptr.ip in
    let d = delete_ip_subtree rand (s.dline head) conf_ptr.ip conf_ptr.ip_mask [] 0 in
    let n = new_ip_subtree conf_ptr.ip conf_ptr.ip_mask (conf_ptr ∷ trim_dlines d.clist) in
    let s' = record s {
      dline = set s.dline head (insert_ip_subtree d.tree n);
      oracle =
          set s.oracle head (bit_or (s.oracle head) (0xffffffff - conf_ptr.ip_mask + conf_ptr.ip));
    } in
    let (placed, left) = rescan_dlines s' s'.leftover in record placed { leftover = left }

-- add_Dline. The parameter gives the outcomes of rand() in this call.
pub add_big_dline : (ℕ → Bool) → State → Conf → State
add_big_dline rand s conf_ptr =
    let c = record conf_ptr {
      ip_mask = if conf_ptr.ip_mask == 0 then 0xffffffff else conf_ptr.ip_mask;
    } in
    let node = find_ip_subtree (s.dline (first_byte c.ip)) c.ip in
    if is_broader node c.ip_mask || is_excepted (find_exception s.leftover c.ip)
    then s
    else place_dline rand s c
