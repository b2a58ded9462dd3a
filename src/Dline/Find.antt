-- ===== src/Dline/Find.antt =====
-- Insertion and search in the trees of src/dline_conf.c.
use igniteircd.Prelude.{
  ℕ, inl, inr, ◌≡◌, refl, ◌∙◌, Bool, true, false, some, ltb, ◌==◌, if◌then◌else◌, bit_and,
  Bool-cases,
}
use igniteircd.Dline.{Node, IpSubtree, leaf, branch, insert_ip_subtree, find_ip_subtree}

-- The D-line of a node covers the address.
abbrev pub covers : Node → ℕ → Bool
covers n ip = n.ip == bit_and ip n.ip_mask

-- At each node on the way to the place of `n` the address is neither covered nor on the other
-- side: the nodes' D-lines do not overlap that of `n`.
abbrev pub IsApart : IpSubtree → Node → ℕ → Type 0
IsApart leaf n ip = Unit
IsApart (branch head left right) n ip =
    (covers head ip ≡ false)
    × (ltb (bit_and ip head.ip_mask) head.ip ≡ ltb n.ip head.ip)
    × IsApart left n ip
    × IsApart right n ip

-- A search among other nodes is not changed by a new node that does not cover the address.
find-insert_other :
    (t : IpSubtree) (n : Node) (ip : ℕ)
    → covers n ip ≡ false
    → find_ip_subtree (insert_ip_subtree t n) ip ≡ find_ip_subtree t ip
unfolding find_ip_subtree insert_ip_subtree
find-insert_other leaf n ip e = elim (Bool-cases (ltb (bit_and ip n.ip_mask) n.ip)) [
  | inl l ↦ rw (e, l) refl
  | inr l ↦ rw (e, l) refl
]
find-insert_other (branch head left right) n ip e = elim (Bool-cases (ltb n.ip head.ip)) [
  | inl l ↦ rw (l, find-insert_other left n ip e) refl
  | inr l ↦ rw (l, find-insert_other right n ip e) refl
]

find-insert_covered :
    (t : IpSubtree) (n : Node) (ip : ℕ)
    → covers n ip ≡ true
    → IsApart t n ip
    → find_ip_subtree (insert_ip_subtree t n) ip ≡ some n
unfolding find_ip_subtree insert_ip_subtree
find-insert_covered leaf n ip e a = rw e refl
find-insert_covered (branch head left right) n ip e a = elim (Bool-cases (ltb n.ip head.ip)) [
  | inl l ↦ let side = a.1 ∙ l in rw (l, a.0, side) (find-insert_covered left n ip e a.2)
  | inr l ↦ let side = a.1 ∙ l in rw (l, a.0, side) (find-insert_covered right n ip e a.3)
]

-- A search for an address after an insertion: the new node is found if it covers the address
-- and none of the others comes in between, and what was found before, or nothing, is found if it
-- does not.
pub find_ip_subtree-insert :
    (t : IpSubtree) (n : Node) (ip : ℕ)
    → (covers n ip ≡ true → IsApart t n ip)
    → find_ip_subtree (insert_ip_subtree t n) ip
      ≡ (if covers n ip then some n else find_ip_subtree t ip)
find_ip_subtree-insert t n ip apart = elim (Bool-cases (covers n ip)) [
  | inl e ↦ find-insert_covered t n ip e (apart e) ∙ rw e refl
  | inr e ↦ find-insert_other t n ip e ∙ rw e refl
]
