-- ===== src/Scache/Laws.antt =====
-- Names that are one up to case have one entry in src/scache.c.
use igniteircd.Prelude.{
  ℕ, ◌+◌, ◌%◌, ◌≤◌, ◌≡◌, refl, sym, ap, ◌∙◌, inl, inr, Bool, true, false, some, List, [], ◌∷◌, Text,
  length, take, take_all, All, Bool-cases, Option-cases, arith, subst,
}
use igniteircd.Chars.Tables.{to_lower, IsChar}
use igniteircd.Chars.Folding.{to_lower-eq_iff_to_upper}
use igniteircd.Mask.Compare.{same_name}
use igniteircd.Mask.Compare.Laws.{
  SameFolding, same_name_iff, same_name_refl, folded_heads, folded_tails,
}
use igniteircd.Channel.Set.{set_at}
use igniteircd.Scache.{Cache, hash_loop, hash, find, add, found_or_added, find_or_add, hostlen}

hash_loop-fold :
    (v : ℕ) (s t : Text)
    → All IsChar s
    → All IsChar t
    → SameFolding s t
    → hash_loop v s ≡ hash_loop v t
unfolding hash_loop
hash_loop-fold v [] [] hs ht e = refl
hash_loop-fold v [] (d ∷ t) hs ht e = cc
hash_loop-fold v (c ∷ s) [] hs ht e = cc
hash_loop-fold v (c ∷ s) (d ∷ t) hs ht e =
    let low : to_lower c ≡ to_lower d =
      (to_lower-eq_iff_to_upper c d hs.0.1 ht.0.1).1 (folded_heads e) in
    rw low (hash_loop-fold (v + to_lower d) s t hs.1 ht.1 (folded_tails e))

pub hash-fold : (s t : Text) → All IsChar s → All IsChar t → same_name s t ≡ true → hash s ≡ hash t
unfolding hash
hash-fold s t hs ht e =
    ap (λ v. v % 257) (hash_loop-fold 0 s t hs ht ((same_name_iff s t hs ht).0 e))

equal_tests : (a b : Bool) → (a ≡ true → b ≡ true) → (b ≡ true → a ≡ true) → a ≡ b
equal_tests true b f g = sym (f refl)
equal_tests false true f g = g refl
equal_tests false false f g = refl

-- An entry is found by one name exactly if it is found by the other.
same_test :
    (x s t : Text)
    → All IsChar x
    → All IsChar s
    → All IsChar t
    → same_name s t ≡ true
    → same_name x s ≡ same_name x t
same_test x s t hx hs ht e =
    let folding = (same_name_iff s t hs ht).0 e in
    equal_tests (same_name x s) (same_name x t)
      (λ h. (same_name_iff x t hx ht).1 ((same_name_iff x s hx hs).0 h ∙ folding))
      (λ h. (same_name_iff x s hx hs).1 ((same_name_iff x t hx ht).0 h ∙ sym folding))

-- All texts of the cache hold bytes and no NUL.
abbrev pub HoldsText : Cache → Type 0
HoldsText c = (ptr : ℕ) → All IsChar (c.name ptr)

find-fold :
    (c : Cache) (s t : Text) (chain : List ℕ)
    → HoldsText c
    → All IsChar s
    → All IsChar t
    → same_name s t ≡ true
    → find c s chain ≡ find c t chain
unfolding find
find-fold c s t [] h hs ht e = refl
find-fold c s t (ptr ∷ chain) h hs ht e =
    rw (same_test (c.name ptr) s t (h ptr) hs ht e, find-fold c s t chain h hs ht e) refl

find-same :
    (c : Cache) (s : Text) (chain : List ℕ) (ptr : ℕ)
    → find c s chain ≡ some ptr
    → same_name (c.name ptr) s ≡ true
unfolding find
find-same c s [] ptr e = cc
find-same c s (q ∷ chain) ptr e = elim (Bool-cases (same_name (c.name q) s)) [
  | inl t ↦
      let at : q ≡ ptr = ground (arith, e, t) in subst (λ p. same_name (c.name p) s ≡ true) at t
  | inr f ↦ find-same c s chain ptr (ground (arith, e, f))
]

-- The entry that a name is found at is found by the other name, in a chain that starts with it.
find-head :
    (c : Cache) (t : Text) (ptr : ℕ) (chain : List ℕ)
    → same_name (c.name ptr) t ≡ true
    → find c t (ptr ∷ chain) ≡ some ptr
unfolding find
find-head c t ptr chain e = rw e refl

add-name : (c : Cache) (s : Text) (fresh : ℕ) → length s ≤ hostlen → (add c s fresh).name fresh ≡ s
unfolding add
add-name c s fresh short = set_at c.name fresh (take hostlen s) ∙ take_all hostlen s short

add-found :
    (c : Cache) (s t : Text) (fresh : ℕ)
    → length s ≤ hostlen
    → hash s ≡ hash t
    → same_name s t ≡ true
    → find (add c s fresh) t ((add c s fresh).scache_hash (hash t)) ≡ some fresh
unfolding add
add-found c s t fresh short e h =
    let c' = add c s fresh in
    let chain : c'.scache_hash (hash t) ≡ fresh ∷ c.scache_hash (hash s) =
      ap c'.scache_hash (sym e) ∙ set_at c.scache_hash (hash s) (fresh ∷ c.scache_hash (hash s)) in
    ap (find c' t) chain
    ∙ find-head c' t fresh (c.scache_hash (hash s))
        (ap (λ x. same_name x t) (add-name c s fresh short) ∙ h)

-- The cache keeps one entry for a name: the entry that find_or_add returns has the name it was
-- asked for, up to case, and a second call with the name, in whatever case, returns the same
-- entry and leaves the cache as it is, wherever MyMalloc would have put a new one. The name has
-- at most HOSTLEN characters; it and the names in the cache hold bytes and no NUL.
pub find_or_add_again :
    (c : Cache) (s t : Text) (fresh fresh' : ℕ)
    → HoldsText c
    → All IsChar s
    → All IsChar t
    → length s ≤ hostlen
    → same_name s t ≡ true
    → (same_name ((find_or_add c s fresh).0.name (find_or_add c s fresh).1) s ≡ true)
      × (find_or_add (find_or_add c s fresh).0 t fresh' ≡ find_or_add c s fresh)
unfolding find_or_add found_or_added
find_or_add_again c s t fresh fresh' hc hs ht short e =
    let same_hash = hash-fold s t hs ht e in
    elim (Option-cases (find c s (c.scache_hash (hash s)))) [
      | inr (ptr, f) ↦
          let again : find c t (c.scache_hash (hash t)) ≡ some ptr =
            ap (λ i. find c t (c.scache_hash i)) (sym same_hash)
            ∙ sym (find-fold c s t (c.scache_hash (hash s)) hc hs ht e)
            ∙ f in
          rw f (find-same c s (c.scache_hash (hash s)) ptr f, rw again refl)
      | inl n ↦
          let self = same_name_refl s in
          let name : (add c s fresh).name fresh ≡ s = add-name c s fresh short in
          rw n
            (ap (λ x. same_name x s) name ∙ self, rw (add-found c s t fresh short same_hash e) refl)
    ]
