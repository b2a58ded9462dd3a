-- ===== src/Dline/Kline/Kinds.antt =====
-- Which lines of match_ip_Kline of src/dline_conf.c decide, told of the lines alone.
use igniteircd.Prelude.{
  ℕ, ◌≡◌, ◌≤◌, ◌⊎◌, ◌↔◌, ◌∙◌, inl, inr, refl, sym, subst, Bool, true, false, ◌&&◌, Option, none,
  some, List, [], ◌∷◌, Text, ◌==◌, bit_and, Bool-cases, ==_iff,
}
use mathlib.Core.Bool.{false≢true}
use igniteircd.Mask.Match.{match}
use igniteircd.Dline.Kline.{Kline, Kind, e_line, k_line, i_line, no_line, kind_for}

and_iff : (a b : Bool) → ((a && b) ≡ true) ↔ ((a ≡ true) × (b ≡ true))
and_iff true b = (λ e. (refl, e), λ h. h.1)
and_iff false b = (λ e. absurd (false≢true e), λ h. absurd (false≢true h.0))

abbrev pub Among : Kline → List Kline → Type 0
Among d [] = ⊥
Among d (c ∷ lines) = (d ≡ c) ⊎ Among d lines

module _ (ip : ℕ) (name : Text) where
  -- The address is in the line's network, and the name is one that the line is for.
  abbrev pub Applies : Kline → Type 0
  Applies c = (c.ip ≡ bit_and ip c.ip_mask) × (match c.user name ≡ true)

  abbrev pub IsEline : Kline → Type 0
  IsEline c = Applies c × (c.is_e_lined ≡ true)

  abbrev pub IsKline : Kline → Type 0
  IsKline c = Applies c × (c.is_kill ≡ true)

  abbrev pub IsIline : Kline → Type 0
  IsIline c = Applies c × (c.is_client ≡ true)

  -- The I-line `c` is not beaten by `d`.
  abbrev pub Yields : Kline → Kline → Type 0
  Yields c d = (IsEline d → ⊥) × (IsKline d → ⊥) × (IsIline d → d.ip_mask ≤ c.ip_mask)

  abbrev pub IsUnlisted : Kline → Type 0
  IsUnlisted d = (IsEline d → ⊥) × (IsKline d → ⊥) × (IsIline d → ⊥)

  -- The line that decides among those of `Seen`: an E-line, or where there is none a K-line, or
  -- where there is none either the I-line of the longest mask.
  abbrev pub IsChosen : (Kline → Type 0) → Option Kline → Type 0
  IsChosen Seen none = (d : Kline) → Seen d → IsUnlisted d
  IsChosen Seen (some c) =
      Seen c
      × (IsEline c
          ⊎ ((IsKline c × ((d : Kline) → Seen d → IsEline d → ⊥))
              ⊎ (IsIline c × ((d : Kline) → Seen d → Yields c d))))

  -- What each kind tells of the item.
  abbrev pub IsKind : Kind → Kline → Type 0
  IsKind e_line c = IsEline c
  IsKind k_line c = IsKline c × (IsEline c → ⊥)
  IsKind i_line c = IsIline c × (IsEline c → ⊥) × (IsKline c → ⊥)
  IsKind no_line c = IsUnlisted c

  tests_iff :
      (c : Kline) → (((c.ip == bit_and ip c.ip_mask) && match c.user name) ≡ true) ↔ Applies c
  tests_iff c =
      let (there, back) = ==_iff c.ip (bit_and ip c.ip_mask) in
      let (both, joined) = and_iff (c.ip == bit_and ip c.ip_mask) (match c.user name) in
      (λ e. (there (both e).0, (both e).1), λ h. joined (back h.0, h.1))

  of_kind :
      (c : Kline) (k : Kind) → kind_for ip name c ≡ k → IsKind k c → IsKind (kind_for ip name c) c
  of_kind c k e h = subst (λ x. IsKind x c) (sym e) h

  pub kind_for-IsKind : (c : Kline) → IsKind (kind_for ip name c) c
  unfolding kind_for
  kind_for-IsKind c = elim (Bool-cases ((c.ip == bit_and ip c.ip_mask) && match c.user name)) [
    | inr f ↦
        let none_ : Applies c → ⊥ = λ h. false≢true (sym f ∙ (tests_iff c).1 h) in
        of_kind c no_line (rw f refl) (λ h. none_ h.0, λ h. none_ h.0, λ h. none_ h.0)
    | inl t ↦
        let own = (tests_iff c).0 t in
        elim (Bool-cases c.is_e_lined) [
          | inl e ↦ of_kind c e_line (rw (t, e) refl) (own, e)
          | inr e ↦
              let ne : IsEline c → ⊥ = λ h. false≢true (sym e ∙ h.1) in
              elim (Bool-cases c.is_kill) [
                | inl k ↦ of_kind c k_line (rw (t, e, k) refl) ((own, k), ne)
                | inr k ↦
                    let nk : IsKline c → ⊥ = λ h. false≢true (sym k ∙ h.1) in
                    elim (Bool-cases c.is_client) [
                      | inl i ↦ of_kind c i_line (rw (t, e, k, i) refl) ((own, i), ne, nk)
                      | inr i ↦
                          of_kind c no_line (rw (t, e, k, i) refl)
                            (ne, nk, λ h. false≢true (sym i ∙ h.1))
                    ]
              ]
        ]
  ]
