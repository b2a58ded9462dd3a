-- ===== src/Class/Find.antt =====
-- What find_class of src/class.c finds after add_class.
use igniteircd.Prelude.{
  ◌≡◌, ◌≢◌, refl, sym, ap, ◌∙◌, inl, inr, ℤ, pos, negsuc, true, false, Option, none, some, List, [],
  ◌∷◌, if◌then◌else◌, ◌==ℤ◌, Bool-cases, arith,
}
use mathlib.Core.Path.{ap₂}
use mathlib.Core.Bool.{false≢true}
use igniteircd.Class.{
  Class, ClassList, Settings, first_of_type, or_first, find_class, configure, update_first,
  add_behind, add_or_update, add_class,
}

==ℤ-sound : (a b : ℤ) → (a ==ℤ b) ≡ true → a ≡ b
==ℤ-sound (pos a) (pos b) e = ap pos (ground arith)
==ℤ-sound (negsuc a) (negsuc b) e = ap negsuc (ground arith)
==ℤ-sound (pos a) (negsuc b) e = cc
==ℤ-sound (negsuc a) (pos b) e = cc

==ℤ-refl : (a : ℤ) → (a ==ℤ a) ≡ true
==ℤ-refl (pos a) = ground arith
==ℤ-refl (negsuc a) = ground arith

==ℤ-false : (a b : ℤ) → a ≢ b → (a ==ℤ b) ≡ false
==ℤ-false a b n = elim (Bool-cases (a ==ℤ b)) [ inl t ↦ absurd (n (==ℤ-sound a b t)) | inr f ↦ f ]

configure-type : (s : Settings) (links : ℤ) → (configure s links).type ≡ s.class
unfolding configure
configure-type s links = refl

-- What update_first answers with.
Updates : Settings → List Class → Option (List Class) → Type 0
Updates s rest none = first_of_type s.class rest ≡ none
Updates s rest (some r) =
    ((cl : Class) × (first_of_type s.class rest ≡ some cl)
      × (first_of_type s.class r ≡ some (configure s cl.links)))
    × ((m : ℤ) → m ≢ s.class → first_of_type m r ≡ first_of_type m rest)

skip-Updates :
    (s : Settings) (cl : Class) (rest : List Class) (o : Option (List Class))
    → (cl.type ==ℤ s.class) ≡ false
    → Updates s rest o
    → Updates s (cl ∷ rest) (elim o [ none ↦ none | some r ↦ some (cl ∷ r) ])
unfolding Updates first_of_type
skip-Updates s cl rest none f u = rw f u
skip-Updates s cl rest (some r) f ((d, e, g), others) =
    ((d, rw f e, rw f g), λ m n. ap (λ o. if cl.type ==ℤ m then some cl else o) (others m n))

update_first-Updates : (s : Settings) (rest : List Class) → Updates s rest (update_first s rest)
unfolding Updates update_first first_of_type
update_first-Updates s [] = refl
update_first-Updates s (cl ∷ rest) = elim (Bool-cases (cl.type ==ℤ s.class)) [
  | inr f ↦ rw f (skip-Updates s cl rest (update_first s rest) f (update_first-Updates s rest))
  | inl t ↦
      let old : first_of_type s.class (cl ∷ rest) ≡ some cl = rw t refl in
      let new : first_of_type s.class (configure s cl.links ∷ rest) ≡ some (configure s cl.links) =
        rw (configure-type s cl.links, ==ℤ-refl s.class) refl in
      rw t (
        (cl, old, new),
        λ m n.
            let apart : (s.class ==ℤ m) ≡ false = ==ℤ-false s.class m (λ e. n (sym e)) in
            let apart' : (cl.type ==ℤ m) ≡ false =
              ap (λ k. k ==ℤ m) (==ℤ-sound cl.type s.class t) ∙ apart in
            rw (configure-type s cl.links, apart, apart') refl,
      )
]

-- The links that a class of this type had, 0 for a new one.
abbrev pub links_before : ClassList → ℤ → ℤ
links_before l n = elim (first_of_type n (l.first ∷ l.rest)) [ none ↦ pos 0 | some cl ↦ cl.links ]

first_of_type-head :
    (n : ℤ) (cl : Class) (rest : List Class)
    → (cl.type ==ℤ n) ≡ true
    → first_of_type n (cl ∷ rest) ≡ some cl
unfolding first_of_type
first_of_type-head n cl rest t = rw t refl

first_of_type-tail :
    (n : ℤ) (cl : Class) (rest : List Class)
    → (cl.type ==ℤ n) ≡ false
    → first_of_type n (cl ∷ rest) ≡ first_of_type n rest
unfolding first_of_type
first_of_type-tail n cl rest f = rw f refl

abbrev found_in : ClassList → ℤ → Option Class
found_in l n = first_of_type n (l.first ∷ l.rest)

links_of : Option Class → ℤ
links_of none = pos 0
links_of (some cl) = cl.links

links_of_lem :
    (s : Settings) (o : Option Class)
    → configure s (links_of o) ≡ configure s (elim o [ none ↦ pos 0 | some cl ↦ cl.links ])
unfolding links_of
links_of_lem s none = refl
links_of_lem s (some cl) = refl

own_found :
    (s : Settings) (l : ClassList) (o : Option (List Class))
    → (l.first.type ==ℤ s.class) ≡ false
    → (s.class ==ℤ pos 0) ≡ false
    → Updates s l.rest o
    → found_in (add_or_update s l o) s.class ≡ some (configure s (links_of (found_in l s.class)))
unfolding Updates add_or_update add_behind links_of
own_found s l none f z u =
    let old : found_in l s.class ≡ none = first_of_type-tail s.class l.first l.rest f ∙ u in
    let own : ((configure s (pos 0)).type ==ℤ s.class) ≡ true =
      rw (configure-type s (pos 0)) (==ℤ-refl s.class) in
    rw z (
      first_of_type-tail s.class l.first _ f
      ∙ first_of_type-head s.class (configure s (pos 0)) l.rest own
      ∙ ap (λ o. some (configure s (links_of o))) (sym old))
own_found s l (some r) f z ((cl, old, new), others) =
    first_of_type-tail s.class l.first r f
    ∙ new
    ∙ ap (λ o. some (configure s (links_of o)))
        (sym (first_of_type-tail s.class l.first l.rest f ∙ old))

-- After add_class the class of that number has the given values, and the links that it had
-- before, or none if it is new. The first class of the list is class 0.
pub find_class-add_class :
    (s : Settings) (l : ClassList)
    → l.first.type ≡ pos 0
    → find_class (add_class s l) s.class ≡ configure s (links_before l s.class)
unfolding find_class add_class or_first add_behind links_of
find_class-add_class s l z = elim (Bool-cases (l.first.type ==ℤ s.class)) [
  | inl t ↦
      let is_0 : (s.class ==ℤ pos 0) ≡ true =
        ap (λ k. k ==ℤ pos 0) (sym (==ℤ-sound l.first.type s.class t) ∙ z) in
      let own : ((configure s l.first.links).type ==ℤ s.class) ≡ true =
        rw (configure-type s l.first.links) (==ℤ-refl s.class) in
      rw (t, is_0)
        (ap (or_first (configure s l.first.links))
            (first_of_type-head s.class (configure s l.first.links) l.rest own)
          ∙ ap (λ o. configure s (links_of o)) (sym (first_of_type-head s.class l.first l.rest t))
          ∙ links_of_lem s (found_in l s.class))
  | inr f ↦
      let not_0 : (s.class ==ℤ pos 0) ≡ false =
        ==ℤ-false s.class (pos 0)
          (λ e. false≢true (sym f ∙ ap (λ k. k ==ℤ s.class) (z ∙ sym e) ∙ ==ℤ-refl s.class)) in
      let o = update_first s l.rest in
      rw f (
        ap (or_first (add_or_update s l o).first)
          (own_found s l o f not_0 (update_first-Updates s l.rest))
        ∙ links_of_lem s (found_in l s.class))
]

other_found :
    (s : Settings) (l : ClassList) (m : ℤ) (o : Option (List Class))
    → (s.class ==ℤ pos 0) ≡ false
    → m ≢ s.class
    → Updates s l.rest o
    → ((add_or_update s l o).first ≡ l.first) × (found_in (add_or_update s l o) m ≡ found_in l m)
unfolding Updates add_or_update add_behind first_of_type
other_found s l m none z n u =
    let apart : ((configure s (pos 0)).type ==ℤ m) ≡ false =
      rw (configure-type s (pos 0)) (==ℤ-false s.class m (λ e. n (sym e))) in
    rw (z, apart) (refl, refl)
other_found s l m (some r) z n ((cl, old, new), others) =
    (refl, ap (λ o. if l.first.type ==ℤ m then some l.first else o) (others m n))

-- A class of another number is found as before, if it is not class 0 that was added. The first
-- class of the list is class 0.
pub find_class-add_class_other :
    (s : Settings) (l : ClassList) (m : ℤ)
    → l.first.type ≡ pos 0
    → s.class ≢ pos 0
    → m ≢ s.class
    → find_class (add_class s l) m ≡ find_class l m
unfolding find_class add_class
find_class-add_class_other s l m z nz n =
    let f : (l.first.type ==ℤ s.class) ≡ false =
      ==ℤ-false l.first.type s.class (λ e. nz (sym e ∙ z)) in
    let o = update_first s l.rest in
    let (head, found) =
      other_found s l m o (==ℤ-false s.class (pos 0) nz) n (update_first-Updates s l.rest) in
    rw f (ap₂ or_first head found)
