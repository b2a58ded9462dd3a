-- ===== src/Hash/Lookup.antt =====
-- A table of src/hash.c under any hash that does not see case.
use igniteircd.Prelude.{
  refl, ℕ, ◌+◌, ◌-◌, ◌≡◌, sym, ap, ◌∙◌, ◌↔◌, inl, inr, true, false, Option, none, some, List, ◌∷◌,
  Text, All, arith, length, ◌==◌, ==-refl, ==_iff, subst, ltb, if◌then◌else◌, Bool-cases,
}
use mathlib.Core.Bool.{false≢true}
use igniteircd.Chars.Tables.{IsChar}
use igniteircd.Mask.Compare.{same_name}
use igniteircd.Hash.{
  clear_table, Objects, Table, HashEntry, find_link, unlink, every, add_link, del_link,
}
use igniteircd.Hash.Chain.{
  holds, NoClash, IsNamed, same_name-cancel, find_link-some, find_link-absent, find_link_unique,
  unlink-holds, holds-unlink, length-unlink, NoClash-unlink, unlink-differs, find_link-unlink,
}

-- The hash sends a name to one chain, whatever its case.
abbrev pub IsFoldHash : (Text → ℕ) → Type 0
IsFoldHash hash =
    (s t : Text) → All IsChar s → All IsChar t → same_name s t ≡ true → hash s ≡ hash t

-- Every object lies in the chain of its name, no chain has two objects of one name, and
-- `links` counts the chain.
pub record IsValid (hash : Text → ℕ) (o : Objects) (t : Table) : Type 0 where
  pub homes : (h p : ℕ) → holds p (t h).list ≡ true → hash (o.name_of p) ≡ h
  pub distinct : (h : ℕ) → NoClash o (t h).list
  pub counted : (h : ℕ) → (t h).links ≡ length (t h).list

-- What holds of one changed entry and of all old ones.
at_or_off :
    (P : ℕ → HashEntry → Type 0) (hv : ℕ) (t t' : Table)
    → P hv (t' hv)
    → ((h : ℕ) → (h == hv) ≡ false → t' h ≡ t h)
    → ((h : ℕ) → P h (t h))
    → (h : ℕ) → P h (t' h)
at_or_off P hv t t' changed off old h = elim (Bool-cases (h == hv)) [
  | inl e ↦ subst (λ k. P k (t' k)) (sym ((==_iff h hv).0 e)) changed
  | inr e ↦ subst (P h) (sym (off h e)) (old h)
]

add_link_at :
    (hv p : ℕ) (t : Table)
    → add_link hv p t hv
      ≡ record { list = p ∷ (t hv).list; links = (t hv).links + 1; hits = (t hv).hits + 1 }
unfolding add_link
add_link_at hv p t = rw (==-refl hv)

add_link_off : (hv p : ℕ) (t : Table) (h : ℕ) → (h == hv) ≡ false → add_link hv p t h ≡ t h
unfolding add_link
add_link_off hv p t h e = rw e

module _ (hv p : ℕ) (t : Table) (rest : List ℕ) (cut : unlink p (t hv).list ≡ some rest) where
  del_link_at : del_link hv p t hv ≡ record {
    list = rest;
    links = if ltb 0 (t hv).links then (t hv).links - 1 else (t hv).links;
    hits = (t hv).hits;
  }
  unfolding del_link
  del_link_at = ground (arith, ==-refl hv)

  del_link_off : (h : ℕ) → (h == hv) ≡ false → del_link hv p t h ≡ t h
  unfolding del_link
  del_link_off h e = ground arith

module _ (hash : Text → ℕ) (fold : IsFoldHash hash) (o : Objects) (named : IsNamed o) where
  abbrev pub Indexed : Table → ℕ → Type 0
  Indexed t p = holds p (t (hash (o.name_of p))).list ≡ true

  abbrev pub found : Table → Text → Option ℕ
  found t name = find_link o every name (t (hash name)).list

  pub found_iff :
      (t : Table) (name : Text) (p : ℕ)
      → IsValid hash o t
      → All IsChar name
      → (found t name ≡ some p) ↔ (Indexed t p × (same_name name (o.name_of p) ≡ true))
  found_iff t name p v c = (
    λ e.
        let (h, s) = find_link-some o name (t (hash name)).list p e in
        (subst (λ k. holds p (t k).list ≡ true) (fold name (o.name_of p) c (named p) s) h, s),
    λ (h, s).
        find_link_unique o name (t (hash name)).list p named c (v.distinct (hash name))
          (subst (λ k. holds p (t k).list ≡ true) (sym (fold name (o.name_of p) c (named p) s)) h)
          s,
  )

  -- A name that is not the object's is looked up in another chain or past the object.
  pub found-add_link :
      (t : Table) (name : Text) (p : ℕ)
      → All IsChar name
      → found (add_link (hash (o.name_of p)) p t) name
        ≡ (if same_name name (o.name_of p) then some p else found t name)
  unfolding find_link
  found-add_link t name p c = elim (Bool-cases (same_name name (o.name_of p))) [
    | inl s ↦ rw (fold name (o.name_of p) c (named p) s, add_link_at (hash (o.name_of p)) p t, s)
    | inr s ↦ elim (Bool-cases (hash name == hash (o.name_of p))) [
      | inl e ↦
          let home : hash name ≡ hash (o.name_of p) = (==_iff _ _).0 e in
          rw (home, add_link_at (hash (o.name_of p)) p t, s)
      | inr e ↦ rw (add_link_off (hash (o.name_of p)) p t (hash name) e, s)
    ]
  ]

  homes_cons :
      (t : Table) (p : ℕ)
      → IsValid hash o t
      → (q : ℕ) → holds q (p ∷ (t (hash (o.name_of p))).list) ≡ true
      → hash (o.name_of q) ≡ hash (o.name_of p)
  homes_cons t p v q h = elim (Bool-cases (p == q)) [
    | inl e ↦ ap (λ r. hash (o.name_of r)) (sym ((==_iff p q).0 e))
    | inr e ↦ v.homes (hash (o.name_of p)) q (ground arith)
  ]

  new_name :
      (t : Table) (p q : ℕ)
      → IsValid hash o t
      → found t (o.name_of p) ≡ none
      → holds q (t (hash (o.name_of p))).list ≡ true
      → same_name (o.name_of p) (o.name_of q) ≡ false
  new_name t p q v absent h = elim (Bool-cases (same_name (o.name_of p) (o.name_of q))) [
    | inl s ↦
        let home = v.homes (hash (o.name_of p)) q h in
        let hit =
          (found_iff t (o.name_of p) q v (named p)).1
            (subst (λ k. holds q (t k).list ≡ true) (sym home) h, s) in
        cc
    | inr s ↦ s
  ]

  gone :
      (name : Text) (p q : ℕ)
      → All IsChar name
      → same_name name (o.name_of p) ≡ true
      → same_name (o.name_of p) (o.name_of q) ≡ false
      → same_name name (o.name_of q) ≡ false
  gone name p q c s d = elim (Bool-cases (same_name name (o.name_of q))) [
    | inl m ↦ absurd (
        false≢true
          (sym d ∙ same_name-cancel name (o.name_of p) (o.name_of q) c (named p) (named q) s m))
    | inr m ↦ m
  ]

  pub add_link-IsValid :
      (t : Table) (p : ℕ)
      → IsValid hash o t
      → found t (o.name_of p) ≡ none
      → IsValid hash o (add_link (hash (o.name_of p)) p t)
  add_link-IsValid t p v absent =
      let hv = hash (o.name_of p) in
      let off = add_link_off hv p t in
      let at = add_link_at hv p t in
      record {
        homes =
            at_or_off (λ h e. (q : ℕ) → holds q e.list ≡ true → hash (o.name_of q) ≡ h) hv t
              (add_link hv p t) (rw at (homes_cons t p v)) off v.homes;
        distinct =
            at_or_off (λ h e. NoClash o e.list) hv t (add_link hv p t)
              (rw at ((λ q k. new_name t p q v absent k), v.distinct hv)) off v.distinct;
        counted =
            at_or_off (λ h e. e.links ≡ length e.list) hv t (add_link hv p t)
              (rw at (omega (arith, v.counted hv))) off v.counted;
      }

  pub found-del_link :
      (t : Table) (name : Text) (p : ℕ)
      → IsValid hash o t
      → Indexed t p
      → All IsChar name
      → found (del_link (hash (o.name_of p)) p t) name
        ≡ (if same_name name (o.name_of p) then none else found t name)
  found-del_link t name p v h c =
      let hv = hash (o.name_of p) in
      let (rest, cut) = unlink-holds p (t hv).list h in
      elim (Bool-cases (same_name name (o.name_of p))) [
        | inl s ↦
            rw (fold name (o.name_of p) c (named p) s, del_link_at hv p t rest cut, s)
              (find_link-absent o name rest (λ q k.
                gone name p q c s
                  (unlink-differs o named p (t hv).list rest cut (v.distinct hv) h q k)))
        | inr s ↦ elim (Bool-cases (hash name == hv)) [
          | inl e ↦
              let home : hash name ≡ hv = (==_iff _ _).0 e in
              rw (home, del_link_at hv p t rest cut, s)
                (find_link-unlink o named name p (t hv).list rest cut s)
          | inr e ↦ rw (del_link_off hv p t rest cut (hash name) e, s)
        ]
      ]

  pub del_link-IsValid :
      (t : Table) (p : ℕ)
      → IsValid hash o t
      → Indexed t p
      → IsValid hash o (del_link (hash (o.name_of p)) p t)
  del_link-IsValid t p v h =
      let hv = hash (o.name_of p) in
      let (rest, cut) = unlink-holds p (t hv).list h in
      let off = del_link_off hv p t rest cut in
      let at = del_link_at hv p t rest cut in
      record {
        homes =
            at_or_off (λ h e. (q : ℕ) → holds q e.list ≡ true → hash (o.name_of q) ≡ h) hv t
              (del_link hv p t)
              (rw at (λ q k. v.homes hv q (holds-unlink p q (t hv).list rest cut k))) off v.homes;
        distinct =
            at_or_off (λ h e. NoClash o e.list) hv t (del_link hv p t)
              (rw at (NoClash-unlink o named p (t hv).list rest cut (v.distinct hv))) off
              v.distinct;
        counted =
            at_or_off (λ h e. e.links ≡ length e.list) hv t (del_link hv p t)
              (rw at (ground (arith, v.counted hv, length-unlink p (t hv).list rest cut))) off
              v.counted;
      }

pub clear_table-IsValid : (hash : Text → ℕ) (o : Objects) → IsValid hash o clear_table
unfolding clear_table
clear_table-IsValid hash o = record { homes = λ h p e. cc; distinct = λ h. tt; counted = λ h. refl }
