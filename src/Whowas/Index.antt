-- ===== src/Whowas/Index.antt =====
-- The lists of src/whowas.c as an index of the entries by a key.
use igniteircd.Prelude.{
  ℕ, suc, inl, inr, ◌-◌, ◌≡◌, ◌≢◌, refl, sym, ap, subst, ◌∙◌, Option, none, some, List, [], ◌∷◌,
  ◌==◌, if◌then◌else◌, Bool-cases, arith,
}
use igniteircd.Channel.{set}
use igniteircd.Channel.Set.{set-same, set_at}
use igniteircd.Whowas.{add_whowas, del_whowas, take_off, put_on}

abbrev pub occ : ℕ → List ℕ → ℕ
occ i [] = 0
occ i (j ∷ l) = if j == i then suc (occ i l) else occ i l

abbrev pub points : Option ℕ → ℕ → ℕ
points none k = 0
points (some h) k = if h == k then 1 else 0

-- Each entry is on the list of its key, once, and on no other list.
abbrev pub IsIndex : (ℕ → List ℕ) → (ℕ → Option ℕ) → Type 0
IsIndex lists key = (i k : ℕ) → occ i (lists k) ≡ points (key i) k

pub occ-del_whowas :
    (i j : ℕ) (l : List ℕ) → occ i (del_whowas j l) ≡ (if j == i then occ i l - 1 else occ i l)
unfolding del_whowas
occ-del_whowas i j [] = ground arith
occ-del_whowas i j (x ∷ l) = let later = occ-del_whowas i j l in ground (arith, later)

occ-set :
    (lists : ℕ → List ℕ) (n : ℕ) (l : List ℕ) (i k : ℕ)
    → occ i (set lists n l k) ≡ (if k == n then occ i l else occ i (lists k))
occ-set lists n l i k = elim (Bool-cases (k == n)) [ inl t ↦ rw t refl | inr f ↦ rw f refl ]

-- Where the list that is replaced gives the number.
occ_replaced :
    (lists : ℕ → List ℕ) (n : ℕ) (l : List ℕ) (i k : ℕ) (m : ℕ)
    → (k ≡ n → occ i l ≡ m)
    → (k ≢ n → occ i (lists k) ≡ m)
    → occ i (set lists n l k) ≡ m
occ_replaced lists n l i k m here others = occ-set lists n l i k ∙ ground (arith, here, others)

if_not : (j i n : ℕ) → i ≢ j → (if j == i then suc n else n) ≡ n
if_not j i n d = ground (arith, d)

module _ (lists : ℕ → List ℕ) (key : ℕ → Option ℕ) (who : ℕ) (h : IsIndex lists key) where
  -- At another entry it is enough that its place in each list is kept.
  key_kept :
      (lists' : ℕ → List ℕ) (o : Option ℕ)
      → ((i k : ℕ) → i ≢ who → occ i (lists' k) ≡ occ i (lists k))
      → ((k : ℕ) → occ who (lists' k) ≡ points o k)
      → IsIndex lists' (set key who o)
  key_kept lists' o others here i k = elim (Bool-cases (i == who)) [
    | inl t ↦
        let e : i ≡ who = ground (arith, t) in
        subst (λ x. occ x (lists' k) ≡ points (set key who o x) k) (sym e)
          (here k ∙ ap (λ x. points x k) (sym (set_at key who o)))
    | inr f ↦
        let e : i ≢ who = ground (arith, f) in
        others i k e ∙ h i k ∙ ap (λ x. points x k) (sym (set-same key who i o e))
  ]

  pub take_off-IsIndex :
      (o : Option ℕ) → key who ≡ o → IsIndex (take_off o who lists) (set key who none)
  unfolding take_off
  take_off-IsIndex none e =
      key_kept lists none (λ i k d. refl) (λ k. h who k ∙ ap (λ x. points x k) e)
  take_off-IsIndex (some n) e =
      key_kept (take_off (some n) who lists) none
        (λ i k d.
          occ_replaced lists n (del_whowas who (lists n)) i k (occ i (lists k))
            (λ e'.
              let r = occ-del_whowas i who (lists n) in
              ground (arith, r, d) ∙ ap (λ x. occ i (lists x)) (sym e'))
            (λ e'. refl))
        (λ k.
          let w = h who k ∙ ap (λ x. points x k) e in
          occ_replaced lists n (del_whowas who (lists n)) who k 0
            (λ e'.
              let r = occ-del_whowas who who (lists n) in
              let w' = h who n ∙ ap (λ x. points x n) e in ground (arith, r, w'))
            (λ e'. ground (arith, w, e')))

  pub put_on-IsIndex :
      (o : Option ℕ) → key who ≡ none → IsIndex (put_on o who lists) (set key who o)
  unfolding put_on add_whowas
  put_on-IsIndex none e =
      key_kept lists none (λ i k d. refl) (λ k. h who k ∙ ap (λ x. points x k) e)
  put_on-IsIndex (some n) e =
      key_kept (put_on (some n) who lists) (some n)
        (λ i k d.
          occ_replaced lists n (who ∷ lists n) i k (occ i (lists k))
            (λ e'. if_not who i (occ i (lists n)) d ∙ ap (λ x. occ i (lists x)) (sym e'))
            (λ e'. refl))
        (λ k.
          let w = h who k ∙ ap (λ x. points x k) e in
          occ_replaced lists n (who ∷ lists n) who k (points (some n) k)
            (λ e'. let w' = h who n ∙ ap (λ x. points x n) e in ground (arith, w', e'))
            (λ e'. ground (arith, w, e')))
