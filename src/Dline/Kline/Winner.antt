-- ===== src/Dline/Kline/Winner.antt =====
-- The loop of match_ip_Kline of src/dline_conf.c finds the line that decides.
use igniteircd.Prelude.{
  ℕ, ◌≡◌, ◌≤◌, ◌⊎◌, inl, inr, refl, sym, subst, Bool, true, false, Option, none, some, List, [],
  ◌∷◌, Text, leb, if◌then◌else◌, arith, Bool-cases,
}
use igniteircd.Dline.Kline.{
  Kline, Kind, e_line, k_line, i_line, no_line, kind_for, take_kind, find_winner,
}
use igniteircd.Dline.Kline.Kinds.{
  Among, IsEline, IsKline, IsIline, Yields, IsUnlisted, IsChosen, IsKind, kind_for-IsKind,
}

module _ (ip : ℕ) (name : Text) where
  -- What the loop knows of the winner so far.
  abbrev IsSofar : (Kline → Type 0) → Option Kline → Bool → Type 0
  IsSofar Seen none true = ⊥
  IsSofar Seen none false = (d : Kline) → Seen d → IsUnlisted ip name d
  IsSofar Seen (some c) true =
      Seen c × IsKline ip name c × ((d : Kline) → Seen d → IsEline ip name d → ⊥)
  IsSofar Seen (some c) false =
      Seen c × IsIline ip name c × ((d : Kline) → Seen d → Yields ip name c d)

  with_scan :
      (Seen X : Kline → Type 0) (scan : Kline)
      → ((d : Kline) → Seen d → X d)
      → X scan
      → (d : Kline) → (Seen d ⊎ (d ≡ scan))
      → X d
  with_scan Seen X scan h x d (inl s) = h d s
  with_scan Seen X scan h x d (inr e) = subst X (sym e) x

  IsChosen-iff :
      (P Q : Kline → Type 0)
      → ((d : Kline) → P d → Q d)
      → ((d : Kline) → Q d → P d)
      → (o : Option Kline) → IsChosen ip name P o
      → IsChosen ip name Q o
  IsChosen-iff P Q f g none h = λ d s. h d (g d s)
  IsChosen-iff P Q f g (some c) (s, inl e) = (f c s, inl e)
  IsChosen-iff P Q f g (some c) (s, inr (inl (k, h))) = (f c s, inr (inl (k, λ d q. h d (g d q))))
  IsChosen-iff P Q f g (some c) (s, inr (inr (i, h))) = (f c s, inr (inr (i, λ d q. h d (g d q))))

  sofar-IsChosen :
      (Seen : Kline → Type 0) (winner : Option Kline) (is_k : Bool)
      → IsSofar Seen winner is_k
      → IsChosen ip name Seen winner
  sofar-IsChosen Seen none true h = absurd h
  sofar-IsChosen Seen none false h = h
  sofar-IsChosen Seen (some c) true (s, k, h) = (s, inr (inl (k, h)))
  sofar-IsChosen Seen (some c) false (s, i, h) = (s, inr (inr (i, h)))

  no_eline :
      (Seen : Kline → Type 0) (winner : Option Kline) (is_k : Bool)
      → IsSofar Seen winner is_k
      → (d : Kline) → Seen d
      → IsEline ip name d
      → ⊥
  no_eline Seen none true h = absurd h
  no_eline Seen none false h = λ d s. (h d s).0
  no_eline Seen (some c) true (s, k, h) = h
  no_eline Seen (some c) false (s, i, h) = λ d q. (h d q).0

  -- The lines seen before, the one at hand, and those to come.
  abbrev AllOf : (Kline → Type 0) → Kline → List Kline → Kline → Type 0
  AllOf Seen scan next d = Seen d ⊎ ((d ≡ scan) ⊎ Among d next)

  to_all :
      (Seen : Kline → Type 0) (scan : Kline) (next : List Kline) (d : Kline)
      → ((Seen d ⊎ (d ≡ scan)) ⊎ Among d next)
      → AllOf Seen scan next d
  to_all Seen scan next d (inl (inl s)) = inl s
  to_all Seen scan next d (inl (inr e)) = inr (inl e)
  to_all Seen scan next d (inr a) = inr (inr a)

  of_all :
      (Seen : Kline → Type 0) (scan : Kline) (next : List Kline) (d : Kline)
      → AllOf Seen scan next d
      → ((Seen d ⊎ (d ≡ scan)) ⊎ Among d next)
  of_all Seen scan next d (inl s) = inl (inl s)
  of_all Seen scan next d (inr (inl e)) = inl (inr e)
  of_all Seen scan next d (inr (inr a)) = inr a

  seen_more :
      (Seen : Kline → Type 0) (scan : Kline) (next : List Kline) (o : Option Kline)
      → IsChosen ip name (λ d. (Seen d ⊎ (d ≡ scan)) ⊎ Among d next) o
      → IsChosen ip name (AllOf Seen scan next) o
  seen_more Seen scan next =
      IsChosen-iff (λ d. (Seen d ⊎ (d ≡ scan)) ⊎ Among d next) (AllOf Seen scan next)
        (to_all Seen scan next) (of_all Seen scan next)

  -- A K-line stays the winner when no E-line comes.
  kline_stays :
      (Seen : Kline → Type 0) (scan : Kline) (winner : Option Kline)
      → (IsEline ip name scan → ⊥)
      → IsSofar Seen winner true
      → IsSofar (λ d. Seen d ⊎ (d ≡ scan)) winner true
  kline_stays Seen scan none n h = h
  kline_stays Seen scan (some c) n (s, k, h) =
      (inl s, k, with_scan Seen (λ d. IsEline ip name d → ⊥) scan h n)

  unlisted_stays :
      (Seen : Kline → Type 0) (scan : Kline) (winner : Option Kline) (is_k : Bool)
      → IsUnlisted ip name scan
      → IsSofar Seen winner is_k
      → IsSofar (λ d. Seen d ⊎ (d ≡ scan)) winner is_k
  unlisted_stays Seen scan winner true n h = kline_stays Seen scan winner n.0 h
  unlisted_stays Seen scan none false n h = with_scan Seen (IsUnlisted ip name) scan h n
  unlisted_stays Seen scan (some c) false (e, k, i) (s, own, h) =
      (inl s, own, with_scan Seen (Yields ip name c) scan h (e, k, λ x. absurd (i x)))

  longer_mask-Yields :
      (Seen : Kline → Type 0) (c scan : Kline)
      → ((d : Kline) → Seen d → Yields ip name c d)
      → c.ip_mask ≤ scan.ip_mask
      → (d : Kline) → Seen d
      → Yields ip name scan d
  longer_mask-Yields Seen c scan h le d s =
      let (e, k, i) = h d s in (e, k, λ x. let y = i x in omega (arith, y, le))

  none_before-Yields :
      (Seen : Kline → Type 0) (scan : Kline)
      → ((d : Kline) → Seen d → IsUnlisted ip name d)
      → (d : Kline) → Seen d
      → Yields ip name scan d
  none_before-Yields Seen scan h d s = let (e, k, i) = h d s in (e, k, λ x. absurd (i x))

  -- What the later rounds make of a winner so far.
  abbrev Later : (Kline → Type 0) → Kline → List Kline → Type 0
  Later Seen scan next =
      (w : Option Kline) (b : Bool)
      → IsSofar (λ d. Seen d ⊎ (d ≡ scan)) w b
      → IsChosen ip name (λ d. (Seen d ⊎ (d ≡ scan)) ⊎ Among d next) (find_winner ip name next w b)

  iline-IsChosen :
      (Seen : Kline → Type 0) (scan : Kline) (next : List Kline) (c : Kline)
      → IsKind ip name i_line scan
      → Later Seen scan next
      → IsSofar Seen (some c) false
      → IsChosen ip name (AllOf Seen scan next) (
          if leb scan.ip_mask c.ip_mask
          then find_winner ip name next (some c) false
          else find_winner ip name next (some scan) false)
  iline-IsChosen Seen scan next c (own, ne, nk) later (s, i, h) =
      elim (Bool-cases (leb scan.ip_mask c.ip_mask)) [
        | inl t ↦
            let le : scan.ip_mask ≤ c.ip_mask = ground (arith, t) in
            rw t (
              seen_more Seen scan next _ (
                later (some c) false
                  (inl s, i, with_scan Seen (Yields ip name c) scan h (ne, nk, λ _. le))))
        | inr f ↦
            let le : c.ip_mask ≤ scan.ip_mask = ground (arith, f) in
            rw f (
              seen_more Seen scan next _ (
                later (some scan) false (
                  inr refl,
                  own,
                  with_scan Seen (Yields ip name scan) scan (longer_mask-Yields Seen c scan h le)
                      (ne, nk, λ _. omega arith),
                )))
      ]

  take_kind-IsChosen :
      (k : Kind) (Seen : Kline → Type 0) (scan : Kline) (next : List Kline) (winner : Option Kline)
      (is_k : Bool)
      → IsKind ip name k scan
      → Later Seen scan next
      → IsSofar Seen winner is_k
      → IsChosen ip name
          (AllOf Seen scan next)
          (take_kind k scan (find_winner ip name next) winner is_k)
  unfolding take_kind
  take_kind-IsChosen e_line Seen scan next winner is_k own later h = (inr (inl refl), inl own)
  take_kind-IsChosen k_line Seen scan next winner is_k (own, ne) later h =
      seen_more Seen scan next _ (
        later (some scan) true (
          inr refl,
          own,
          with_scan Seen (λ d. IsEline ip name d → ⊥) scan (no_eline Seen winner is_k h) ne,
        ))
  take_kind-IsChosen i_line Seen scan next winner true (own, ne, nk) later h =
      seen_more Seen scan next _ (later winner true (kline_stays Seen scan winner ne h))
  take_kind-IsChosen i_line Seen scan next none false (own, ne, nk) later h =
      seen_more Seen scan next _ (
        later (some scan) false (
          inr refl,
          own,
          with_scan Seen (Yields ip name scan) scan (none_before-Yields Seen scan h)
              (ne, nk, λ _. omega arith),
        ))
  take_kind-IsChosen i_line Seen scan next (some c) false own later h =
      iline-IsChosen Seen scan next c own later h
  take_kind-IsChosen no_line Seen scan next winner is_k own later h =
      seen_more Seen scan next _ (later winner is_k (unlisted_stays Seen scan winner is_k own h))

  rounds-IsChosen :
      (lines : List Kline) (Seen : Kline → Type 0) (winner : Option Kline) (is_k : Bool)
      → IsSofar Seen winner is_k
      → IsChosen ip name (λ d. Seen d ⊎ Among d lines) (find_winner ip name lines winner is_k)
  unfolding find_winner
  rounds-IsChosen [] Seen winner is_k h =
      IsChosen-iff Seen (λ d. Seen d ⊎ ⊥) (λ d s. inl s)
        (λ d s. elim s [ inl x ↦ x | inr x ↦ absurd x ]) winner (sofar-IsChosen Seen winner is_k h)
  rounds-IsChosen (scan ∷ next) Seen winner is_k h =
      take_kind-IsChosen (kind_for ip name scan) Seen scan next winner is_k
        (kind_for-IsKind ip name scan) (rounds-IsChosen next (λ d. Seen d ⊎ (d ≡ scan))) h

  -- From no winner, the answer is an item of the list whose network has the address and which is
  -- for the name: an E-line if there is one, else a K-line, else an I-line with the longest mask
  -- of those. There is no answer only if the list has no such E-, K- or I-line.
  pub find_winner-IsChosen :
      (lines : List Kline)
      → IsChosen ip name (λ d. Among d lines) (find_winner ip name lines none false)
  find_winner-IsChosen lines =
      IsChosen-iff (λ d. ⊥ ⊎ Among d lines) (λ d. Among d lines)
        (λ d s. elim s [ inl x ↦ absurd x | inr x ↦ x ]) (λ d s. inr s)
        (find_winner ip name lines none false)
        (rounds-IsChosen lines (λ d. ⊥) none false (λ d s. absurd s))
