-- ===== src/Parse/Tree.antt =====
-- The prefix tree of commands in src/parse.c. `mptr` walks along the table of messages, sorted
-- by qsort; here it is the list of the entries from `mptr` on, each with its index in the table
-- as its address and its command. NULL is the tree `null`.
pub mod Order
pub mod Visit
pub mod Letter
pub mod Loop
pub mod Grow
pub mod Build
pub mod Samples
mod Tests
use igniteircd.Prelude.{
  ℕ, zero, suc, ◌+◌, ◌-◌, Bool, true, false, not, ◌&&◌, ◌||◌, Option, none, some, List, [], ◌∷◌,
  ◌++◌, Text, length, drop, get_or, ◌==◌, leb, if◌then◌else◌, bit_and,
}
use igniteircd.Mask.Compare.{same_name}

pub record Entry : Type 0 where
  pub msg : ℕ
  pub cmd : Text

-- `final`: NULL, `(void *)1`, or the rest of the one command below.
pub data Final : Type 0 where
  no_final whole : Final
  rest : Text → Final

-- `pointers` by the number of the letter.
pub data MessageTree : Type 0 where
  null : MessageTree
  node : Final → ℕ → (ℕ → MessageTree) → MessageTree

-- `failed` is the exit(1) of a table that is not as it should be.
pub data Built : Type 0 where
  failed : Built
  built : MessageTree → List Entry → Built

pub data Letters : Type 0 where
  stopped : Letters
  letters : (ℕ → MessageTree) → List Entry → Letters

-- `!strncmp(cmd, prefix, strlen(prefix))`
pub starts : Text → Text → Bool
starts [] cmd = true
starts (p ∷ prefix) [] = false
starts (p ∷ prefix) (c ∷ cmd) = if p == c then starts prefix cmd else false

-- The table goes on with an entry of the prefix.
pub goes_on : Text → List Entry → Bool
goes_on prefix [] = false
goes_on prefix (e ∷ entries) = starts prefix e.cmd

-- `mptr->cmd[lp]`
pub letter_at : ℕ → List Entry → ℕ
letter_at lp [] = 0
letter_at lp (e ∷ entries) = get_or e.cmd lp 0

abbrev pub no_pointers : ℕ → MessageTree
no_pointers c = null

-- The write of one pointer.
pub point : ℕ → MessageTree → (ℕ → MessageTree) → ℕ → MessageTree
point c t pointers d = if d == c then t else pointers d

-- What a letter adds to the letters behind it.
pub join_letters : ℕ → MessageTree → Letters → Letters
join_letters c t stopped = stopped
join_letters c t (letters pointers entries) = letters (point c t pointers) entries

-- What follows the call for a letter: the rest of the pointers is NULL if the prefix is done.
pub after_letter : Text → ℕ → (List Entry → Letters) → Built → Letters
after_letter prefix c next failed = stopped
after_letter prefix c next (built t entries) =
    let later = next entries in
    if goes_on prefix entries
    then join_letters c t later
    else letters (point c t no_pointers) entries

-- `for (c='A'; c<='Z'; c++)` with n letters left; `build` is the call for a longer prefix.
pub each_letter : (Text → List Entry → Built) → Text → ℕ → List Entry → Letters
each_letter build prefix zero entries = letters no_pointers entries
each_letter build prefix (suc n) entries =
    let c = 25 - n in
    let skipped = each_letter build prefix n entries in
    let called = build (prefix ++ (b'A' + c) ∷ []) entries in
    if letter_at (length prefix) entries == b'A' + c
    then after_letter prefix c (each_letter build prefix n) called
    else skipped

pub tree_of : Final → ℕ → Letters → Built
tree_of final msg stopped = failed
tree_of final msg (letters pointers entries) = built (node final msg pointers) entries

-- The ambiguous case. `msg` is not set where `final` is NULL.
pub branch : (Text → List Entry → Built) → Text → Entry → List Entry → Built
branch build prefix e entries =
    if same_name e.cmd prefix
    then tree_of whole e.msg (each_letter build prefix 26 entries)
    else tree_of no_final 0 (each_letter build prefix 26 (e ∷ entries))

pub do_msg_tree : ℕ → Text → List Entry → Built
do_msg_tree zero prefix entries = failed
do_msg_tree (suc fuel) prefix [] = failed
do_msg_tree (suc fuel) prefix (e ∷ entries) =
    let deeper = branch (do_msg_tree fuel) prefix e entries in
    if starts prefix e.cmd
    then (if goes_on prefix entries
        then deeper
        else built (node (rest (drop (length prefix) e.cmd)) e.msg no_pointers) entries)
    else failed

-- `newpref` has room for 64 characters, so that no call can go deeper.
abbrev pub newpref_size : ℕ
newpref_size = 64

-- The entries are left over if one has other characters than capital letters.
pub whole_table : Built → Option MessageTree
whole_table failed = none
whole_table (built t []) = some t
whole_table (built t (e ∷ entries)) = none

-- `sorted` is the table after qsort.
pub init_tree_parse : List Entry → Option MessageTree
init_tree_parse sorted = whole_table (do_msg_tree newpref_size [] sorted)

pub pointers_of : MessageTree → ℕ → MessageTree
pointers_of null c = null
pointers_of (node final msg pointers) c = pointers c

-- `r &= 0xdf`
abbrev pub upper_bits : ℕ → ℕ
upper_bits r = bit_and r 0xdf

abbrev pub is_capital : ℕ → Bool
is_capital r = leb b'A' r && leb r b'Z'

abbrev pub is_end : Text → Bool
is_end [] = true
is_end (_ ∷ _) = false

-- The tests at a node that was reached, with `cmd` behind the letter; `further` is what the
-- rest of the loop answers.
pub visit : MessageTree → Text → Option ℕ → Option ℕ
visit null cmd further = none
visit (node no_final msg pointers) cmd further = further
visit (node whole msg pointers) cmd further = if is_end cmd then some msg else further
visit (node (rest final) msg pointers) cmd further =
    if same_name final cmd then some msg else further

-- The loop of tree_parse from the node with these pointers.
pub walk : (ℕ → MessageTree) → Text → Option ℕ
walk pointers [] = none
walk pointers (r ∷ cmd) =
    let mtree = pointers (upper_bits r - b'A') in
    let further = walk (pointers_of mtree) cmd in
    if is_capital (upper_bits r) then visit mtree cmd further else none

pub tree_parse : MessageTree → Text → Option ℕ
tree_parse root cmd = walk (pointers_of root) cmd
