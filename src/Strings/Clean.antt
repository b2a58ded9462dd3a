-- ===== src/Strings/Clean.antt =====
-- What the copies of src/irc_string.c write.
use igniteircd.Prelude.{
  ℕ, zero, suc, inl, inr, ◌+◌, ◌-◌, ◌/◌, ◌%◌, ◌<◌, ◌≤◌, ◌≡◌, refl, ap, subst, [], ◌∷◌, ◌++◌, Text,
  length, take, ltb, Bool-cases, All, arith,
}
use igniteircd.Chars.Tables.{IsChar}
use igniteircd.Strings.{strncpy_irc, escape, clean_chars, clean_string}

-- The part of an array that strncpy_irc writes is the text with its NUL if both fit, and as much
-- of the text as fits, without a NUL, if not.
pub strncpy_irc_lem : (s2 : Text) (n : ℕ) → strncpy_irc s2 n ≡ take n (s2 ++ 0 ∷ [])
unfolding strncpy_irc
strncpy_irc_lem s2 zero = refl
strncpy_irc_lem [] (suc zero) = refl
strncpy_irc_lem [] (suc (suc n)) = refl
strncpy_irc_lem (c ∷ s2) (suc n) = ap (◌∷◌ c) (strncpy_irc_lem s2 n)

abbrev pub IsPrintable : ℕ → Type 0
IsPrintable c = (b' ' ≤ c) × (c ≤ b'~')

-- A text of printable characters with a NUL in an array of so many bytes.
abbrev pub FitsIn : ℕ → Text → Type 0
FitsIn room s = (length s ≤ room) × All IsPrintable s

one_more :
    (room n : ℕ) (c : ℕ) (s : Text) → IsPrintable c → FitsIn n s → n < room → FitsIn room (c ∷ s)
one_more room n c s p h e = (omega (arith, h.0, e), (p, h.1))

alone : (room : ℕ) (c : ℕ) → IsPrintable c → FitsIn (suc room) (c ∷ [])
alone room c p = (omega arith, (p, tt))

-- A byte escaped by its three digits.
escape-FitsIn : (c : ℕ) (n : ℕ) (s : Text) → c < 256 → FitsIn n s → FitsIn (n + 4) (escape c ++ s)
unfolding escape
escape-FitsIn c n s h f =
    one_more (n + 4) (n + 3) b'\\' ((b'0' + c / 100) ∷ (b'0' + (c / 10) % 10) ∷ (b'0' + c % 10) ∷ s)
      (omega arith, omega arith)
      (one_more (n + 3) (n + 2) (b'0' + c / 100) ((b'0' + (c / 10) % 10) ∷ (b'0' + c % 10) ∷ s)
        (omega arith, omega (arith, h))
        (one_more (n + 2) (n + 1) (b'0' + (c / 10) % 10) ((b'0' + c % 10) ∷ s)
          (omega arith, omega arith)
          (one_more (n + 1) n (b'0' + c % 10) s (omega arith, omega arith) f (omega arith))
          (omega arith))
        (omega arith))
      (omega arith)

clean_chars-FitsIn : (room : ℕ) (src : Text) → All IsChar src → FitsIn room (clean_chars room src)
unfolding clean_chars
clean_chars-FitsIn room [] h = (omega arith, tt)
clean_chars-FitsIn zero (c ∷ src) h = (omega arith, tt)
clean_chars-FitsIn (suc room) (c ∷ src) h =
    let caret = clean_chars-FitsIn (room - 1) src h.1 in
    let same = clean_chars-FitsIn (suc room) src h.1 in
    let escaped = clean_chars-FitsIn (suc room - 4) src h.1 in
    let plain = clean_chars-FitsIn room src h.1 in
    elim (Bool-cases (ltb c b' ')) [
      | inl t ↦ elim (Bool-cases (ltb 0 room)) [
        | inl r ↦
            rw (t, r)
              (one_more (suc room) room b'^' ((0x40 + c) ∷ clean_chars (room - 1) src)
                (omega arith, omega arith)
                (one_more room (room - 1) (0x40 + c) _ (omega arith, ground (arith, t)) caret
                  (ground (arith, r)))
                (omega arith))
        | inr r ↦ rw (t, r) (alone room b'^' (omega arith, omega arith))
      ]
      | inr f ↦ elim (Bool-cases (ltb b'~' c)) [
        | inl t ↦ elim (Bool-cases (ltb 4 (suc room))) [
          | inl r ↦
              let e : suc room - 4 + 4 ≡ suc room = ground (arith, r) in
              rw (f, t, r)
                (subst (λ n. FitsIn n (escape c ++ clean_chars (suc room - 4) src)) e
                  (escape-FitsIn c (suc room - 4) (clean_chars (suc room - 4) src) h.0.1 escaped))
          | inr r ↦ rw (f, t, r) same
        ]
        | inr g ↦
            rw (f, g)
              (one_more (suc room) room c _ (ground (arith, f), ground (arith, g)) plain
                (omega arith))
      ]
    ]

-- Cleaning a text of any bytes into an array of so many places leaves room for the NUL and writes
-- printable characters only, however long the text is and wherever an escape falls.
pub clean_string-bounds :
    (src : Text) (len : ℕ)
    → All IsChar src
    → 0 < len
    → (length (clean_string src len) < len) × All IsPrintable (clean_string src len)
unfolding clean_string
clean_string-bounds src len h some_room =
    let fits = clean_chars-FitsIn (len - 1) src h in (omega (arith, fits.0, some_room), fits.1)
