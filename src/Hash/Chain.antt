-- ===== src/Hash/Chain.antt =====
-- One chain of a table of src/hash.c: what the walks over it find and cut out.
use igniteircd.Prelude.{
  ℕ, suc, ◌≡◌, refl, sym, ◌∙◌, inl, inr, Bool, true, false, ◌||◌, none, some, List, [], ◌∷◌, Text,
  All, arith, length, ◌==◌, ==-refl, ==_iff, subst, Bool-cases, Option-cases,
}
use mathlib.Core.Bool.{false≢true}
use igniteircd.Chars.Tables.{IsChar}
use igniteircd.Mask.Compare.{same_name}
use igniteircd.Mask.Compare.Laws.{same_name_iff}
use igniteircd.Hash.{Objects, find_link, unlink, every}

abbrev pub holds : ℕ → List ℕ → Bool
holds p [] = false
holds p (q ∷ chain) = q == p || holds p chain

-- No name in the chain is another's up to case.
abbrev pub NoClash : Objects → List ℕ → Type 0
NoClash o [] = Unit
NoClash o (p ∷ chain) =
    ((q : ℕ) → holds q chain ≡ true → same_name (o.name_of p) (o.name_of q) ≡ false)
    × NoClash o chain

-- Every name holds bytes and no NUL.
abbrev pub IsNamed : Objects → Type 0
IsNamed o = (p : ℕ) → All IsChar (o.name_of p)

pub same_name-cancel :
    (n s t : Text)
    → All IsChar n
    → All IsChar s
    → All IsChar t
    → same_name n s ≡ true
    → same_name n t ≡ true
    → same_name s t ≡ true
same_name-cancel n s t hn hs ht e f =
    (same_name_iff s t hs ht).1
      (sym ((same_name_iff n s hn hs).0 e) ∙ (same_name_iff n t hn ht).0 f)

pub same_name_refl : (s : Text) → All IsChar s → same_name s s ≡ true
same_name_refl s h = (same_name_iff s s h h).1 refl

pub same_name-sym :
    (s t : Text) → All IsChar s → All IsChar t → same_name s t ≡ true → same_name t s ≡ true
same_name-sym s t hs ht e = (same_name_iff t s ht hs).1 (sym ((same_name_iff s t hs ht).0 e))

module _ (o : Objects) where
  pub find_link-some :
      (name : Text) (chain : List ℕ) (p : ℕ)
      → find_link o every name chain ≡ some p
      → (holds p chain ≡ true) × (same_name name (o.name_of p) ≡ true)
  unfolding find_link
  find_link-some name [] p e = cc
  find_link-some name (q ∷ chain) p e = elim (Bool-cases (same_name name (o.name_of q))) [
    | inl h ↦ (ground (arith, ==-refl p), ground arith)
    | inr h ↦ let (x, y) = find_link-some name chain p (ground arith) in (ground arith, y)
  ]

  pub find_link-absent :
      (name : Text) (chain : List ℕ)
      → ((q : ℕ) → holds q chain ≡ true → same_name name (o.name_of q) ≡ false)
      → find_link o every name chain ≡ none
  unfolding find_link
  find_link-absent name [] h = refl
  find_link-absent name (q ∷ chain) h =
      rw (h q (ground (arith, ==-refl q))) (find_link-absent name chain (λ r k. h r (ground arith)))

  pub find_link_unique :
      (name : Text) (chain : List ℕ) (p : ℕ)
      → IsNamed o
      → All IsChar name
      → NoClash o chain
      → holds p chain ≡ true
      → same_name name (o.name_of p) ≡ true
      → find_link o every name chain ≡ some p
  unfolding find_link
  find_link_unique name [] p c n d h e = cc
  find_link_unique name (q ∷ chain) p c n d h e = elim (Bool-cases (q == p)) [
    | inl k ↦ ground arith
    | inr k ↦ elim (Bool-cases (same_name name (o.name_of q))) [
      | inl m ↦
          absurd
            (false≢true (sym (d.0 p (ground arith)) ∙ same_name-cancel name _ _ n (c q) (c p) m e))
      | inr m ↦ rw m (find_link_unique name chain p c n d.1 (ground arith) e)
    ]
  ]

pub unlink-holds :
    (p : ℕ) (chain : List ℕ) → holds p chain ≡ true → (rest : List ℕ) × (unlink p chain ≡ some rest)
unfolding unlink
unlink-holds p [] h = cc
unlink-holds p (q ∷ chain) h = elim (Bool-cases (q == p)) [
  | inl k ↦ (chain, ground arith)
  | inr k ↦ let (rest, e) = unlink-holds p chain (ground arith) in (q ∷ rest, ground arith)
]

pub holds-unlink :
    (p q : ℕ) (chain rest : List ℕ)
    → unlink p chain ≡ some rest
    → holds q rest ≡ true
    → holds q chain ≡ true
unfolding unlink
holds-unlink p q [] rest e h = cc
holds-unlink p q (r ∷ chain) rest e h = elim (Bool-cases (r == p)) [
  | inl k ↦ ground arith
  | inr k ↦ elim (Option-cases (unlink p chain)) [
    | inl m ↦ ground arith
    | inr (tail, m) ↦ ground (arith, holds-unlink p q chain tail m)
  ]
]

pub length-unlink :
    (p : ℕ) (chain rest : List ℕ) → unlink p chain ≡ some rest → length chain ≡ suc (length rest)
unfolding unlink
length-unlink p [] rest e = cc
length-unlink p (r ∷ chain) rest e = elim (Bool-cases (r == p)) [
  | inl k ↦ ground arith
  | inr k ↦ elim (Option-cases (unlink p chain)) [
    | inl m ↦ ground arith
    | inr (tail, m) ↦ ground (arith, length-unlink p chain tail m)
  ]
]

module _ (o : Objects) (named : IsNamed o) where
  pub NoClash-unlink :
      (p : ℕ) (chain rest : List ℕ) → unlink p chain ≡ some rest → NoClash o chain → NoClash o rest
  unfolding unlink
  NoClash-unlink p [] rest e d = cc
  NoClash-unlink p (r ∷ chain) rest e d = elim (Bool-cases (r == p)) [
    | inl k ↦ let cut : chain ≡ rest = ground arith in subst (NoClash o) cut d.1
    | inr k ↦ elim (Option-cases (unlink p chain)) [
      | inl m ↦ ground arith
      | inr (tail, m) ↦
          let cut : r ∷ tail ≡ rest = ground arith in
          subst (NoClash o) cut
            ((λ q h. d.0 q (holds-unlink p q chain tail m h)), NoClash-unlink p chain tail m d.1)
    ]
  ]

  not_same-sym :
      (p q : ℕ)
      → same_name (o.name_of p) (o.name_of q) ≡ false
      → same_name (o.name_of q) (o.name_of p) ≡ false
  not_same-sym p q h = elim (Bool-cases (same_name (o.name_of q) (o.name_of p))) [
    | inl e ↦ absurd (false≢true (sym h ∙ same_name-sym _ _ (named q) (named p) e))
    | inr e ↦ e
  ]

  -- What is left in the chain has other names than what was cut out.
  pub unlink-differs :
      (p : ℕ) (chain rest : List ℕ)
      → unlink p chain ≡ some rest
      → NoClash o chain
      → holds p chain ≡ true
      → (q : ℕ) → holds q rest ≡ true
      → same_name (o.name_of p) (o.name_of q) ≡ false
  unfolding unlink
  unlink-differs p [] rest e d h q k = cc
  unlink-differs p (r ∷ chain) rest e d h q k = elim (Bool-cases (r == p)) [
    | inl x ↦
        let same : r ≡ p = (==_iff r p).0 x in
        let cut : chain ≡ rest = ground arith in
        subst (λ a. same_name (o.name_of a) (o.name_of q) ≡ false) same
          (d.0 q (subst (λ l. holds q l ≡ true) (sym cut) k))
    | inr x ↦ elim (Option-cases (unlink p chain)) [
      | inl m ↦ ground arith
      | inr (tail, m) ↦
          let cut : r ∷ tail ≡ rest = ground arith in
          elim (Bool-cases (r == q)) [
            | inl y ↦
                let same : r ≡ q = (==_iff r q).0 y in
                subst (λ a. same_name (o.name_of p) (o.name_of a) ≡ false) same
                  (not_same-sym r p (d.0 p (ground arith)))
            | inr y ↦ unlink-differs p chain tail m d.1 (ground arith) q (ground arith)
          ]
    ]
  ]

  pub find_link-unlink :
      (name : Text) (p : ℕ) (chain rest : List ℕ)
      → unlink p chain ≡ some rest
      → same_name name (o.name_of p) ≡ false
      → find_link o every name rest ≡ find_link o every name chain
  unfolding unlink find_link
  find_link-unlink name p [] rest e h = cc
  find_link-unlink name p (r ∷ chain) rest e h = elim (Bool-cases (r == p)) [
    | inl x ↦
        let same : r ≡ p = (==_iff r p).0 x in
        let cut : chain ≡ rest = ground arith in rw (same, h, ← cut)
    | inr x ↦ elim (Option-cases (unlink p chain)) [
      | inl m ↦ ground arith
      | inr (tail, m) ↦
          let cut : r ∷ tail ≡ rest = ground arith in
          rw (← cut) (ground (arith, find_link-unlink name p chain tail m h))
    ]
  ]
