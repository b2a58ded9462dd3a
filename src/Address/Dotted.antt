-- ===== src/Address/Dotted.antt =====
-- What `inetntoa` of src/irc_string.c writes, without its table.
use igniteircd.Prelude.{
  ℕ, ◌+◌, ◌/◌, ◌%◌, ◌≤◌, ◌<◌, ◌≡◌, refl, ap, ◌∙◌, Bool, true, false, ◌&&◌, [], ◌∷◌, ◌++◌, Text,
  length, get_or, ltb, ◌==◌, if◌then◌else◌, right_table, right_table_at, length-append, arith,
}
use mathlib.Core.Path.{ap₂}
use igniteircd.Address.{InAddr, inetntoa, ip_quad_tab}

-- The decimal digits of a byte, without leading zeros.
abbrev pub decimal : ℕ → Text
decimal n =
    if ltb n 10
    then (b'0' + n) ∷ []
    else if ltb n 100
    then (b'0' + n / 10) ∷ (b'0' + n % 10) ∷ []
    else (b'0' + n / 100) ∷ (b'0' + n / 10 % 10) ∷ (b'0' + n % 10) ∷ []

abbrev same_text : Text → Text → Bool
same_text [] [] = true
same_text [] (d ∷ t) = false
same_text (c ∷ s) [] = false
same_text (c ∷ s) (d ∷ t) = (c == d) && same_text s t

same_text_sound : (s t : Text) → same_text s t ≡ true → s ≡ t
same_text_sound [] [] e = refl
same_text_sound [] (d ∷ t) e = cc
same_text_sound (c ∷ s) [] e = cc
same_text_sound (c ∷ s) (d ∷ t) e =
    let heads : c ≡ d = ground arith in
    let tails : same_text s t ≡ true = ground arith in ap₂ ◌∷◌ heads (same_text_sound s t tails)

ip_quad_tab_lem : (n : ℕ) → n < 256 → get_or ip_quad_tab n [] ≡ decimal n
unfolding right_table
ip_quad_tab_lem n h =
    same_text_sound _ _
      (right_table_at 256 (λ n. same_text (get_or ip_quad_tab n []) (decimal n)) n refl h)

length-decimal : (n : ℕ) → length (decimal n) ≤ 3
length-decimal n = ground arith

length-joined :
    (s t u v : Text)
    → length (s ++ b'.' ∷ t ++ b'.' ∷ u ++ b'.' ∷ v) ≡ length s + length t + length u + length v + 3
length-joined s t u v = omega (
  arith,
  length-append (s ++ b'.' ∷ t ++ b'.' ∷ u) (b'.' ∷ v),
  length-append (s ++ b'.' ∷ t) (b'.' ∷ u),
  length-append s (b'.' ∷ t),
)

pub record IsInAddr (a : InAddr) : Type 0 where
  pub b1_byte : a.b1 < 256
  pub b2_byte : a.b2 < 256
  pub b3_byte : a.b3 < 256
  pub b4_byte : a.b4 < 256

abbrev pub dotted : InAddr → Text
dotted a = decimal a.b1 ++ b'.' ∷ decimal a.b2 ++ b'.' ∷ decimal a.b3 ++ b'.' ∷ decimal a.b4

-- An address of four bytes is written as their decimal numbers with dots between them, and with
-- its NUL it fits in the buffer of 16 characters.
pub inetntoa_lem :
    (a : InAddr) → IsInAddr a → (inetntoa a ≡ dotted a) × (length (inetntoa a) + 1 ≤ 16)
unfolding inetntoa
inetntoa_lem a v =
    let same : inetntoa a ≡ dotted a =
      rw
        (
          ip_quad_tab_lem a.b1 v.b1_byte,
          ip_quad_tab_lem a.b2 v.b2_byte,
          ip_quad_tab_lem a.b3 v.b3_byte,
          ip_quad_tab_lem a.b4 v.b4_byte,
        )
        refl in
    let size = length-joined (decimal a.b1) (decimal a.b2) (decimal a.b3) (decimal a.b4) in
    (
      same,
      omega (
        arith,
        ap length same ∙ size,
        length-decimal a.b1,
        length-decimal a.b2,
        length-decimal a.b3,
        length-decimal a.b4,
      ),
    )
