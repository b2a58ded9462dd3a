-- ===== src/Channel/Modes/Replay.antt =====
-- The mode string that set_channel_mode of src/channel.c announces, as its receivers read it, and
-- what collapse_signs leaves of it.
use igniteircd.Prelude.{
  ℕ, ◌≡◌, refl, sym, ap, ◌∙◌, inl, inr, Bool, true, false, Option, none, some, [], ◌∷◌, ◌++◌, Text,
  ◌==◌, if◌then◌else◌, Bool-cases, arith, bit_or, subst, ==_iff,
}
use igniteircd.Channel.Members.{without}
use igniteircd.Channel.Modes.Text.{is_sign, collapse_from, collapse_signs}

-- The mode bit that a letter stands for, as in RFC 1459.
abbrev pub bit_of : ℕ → Option ℕ
bit_of letter =
    if letter == b'i'
    then some 128
    else if letter == b'l'
    then some 8192
    else if letter == b'm'
    then some 32
    else if letter == b'n'
    then some 256
    else if letter == b'p'
    then some 8
    else if letter == b'r'
    then some 16384
    else if letter == b's'
    then some 16
    else if letter == b't'
    then some 64
    else none

abbrev changed_by : Bool → ℕ → Option ℕ → ℕ
changed_by on bits none = bits
changed_by true bits (some bit) = bit_or bits bit
changed_by false bits (some bit) = without bits bit

unfoldable pub effect : Bool → ℕ → ℕ → ℕ
effect on letter bits = changed_by on bits (bit_of letter)

-- The mode bits after a mode string, which is read with the sign `on` in force.
unfoldable pub replay : Bool → Text → ℕ → ℕ
replay on [] bits = bits
replay on (c ∷ s) bits =
    let plus = replay true s bits in
    let minus = replay false s bits in
    let next = replay on s (effect on c bits) in
    if c == b'+' then plus else if c == b'-' then minus else next

pub replay-append :
    (on : Bool) (s : Text) (p x bits : ℕ)
    → is_sign p ≡ true
    → is_sign x ≡ false
    → replay on (s ++ p ∷ x ∷ []) bits ≡ effect (p == b'+') x (replay on s bits)
unfolding replay
replay-append on [] p x bits hp hx = elim (Bool-cases (p == b'+')) [
  | inl t ↦ ground (arith, t, hx)
  | inr f ↦ ground (arith, f, hp, hx)
]
replay-append on (c ∷ s) p x bits hp hx =
    let a = replay-append true s p x bits hp hx in
    let b = replay-append false s p x bits hp hx in
    let d = replay-append on s p x (effect on c bits) hp hx in
    elim (Bool-cases (c == b'+')) [
      | inl t ↦ rw t a
      | inr f ↦ elim (Bool-cases (c == b'-')) [ inl t ↦ rw (f, t) b | inr g ↦ rw (f, g) d ]
    ]

-- The sign that collapse_signs has in force, and 0 before it has seen one.
abbrev sign_of : Bool → ℕ
sign_of true = b'+'
sign_of false = b'-'

-- What collapse_signs keeps of a text, and that it does so by the first character.
abbrev Reads : Bool → ℕ → Text → ℕ → Type 0
Reads on c s bits = replay on (collapse_from (sign_of on) (c ∷ s)) bits ≡ replay on (c ∷ s) bits

Reads-plus :
    (on : Bool) (s : Text) (bits : ℕ)
    → replay true (collapse_from b'+' s) bits ≡ replay true s bits
    → Reads on b'+' s bits
unfolding replay collapse_from
Reads-plus true s bits h = h
Reads-plus false s bits h = h

Reads-minus :
    (on : Bool) (s : Text) (bits : ℕ)
    → replay false (collapse_from b'-' s) bits ≡ replay false s bits
    → Reads on b'-' s bits
unfolding replay collapse_from
Reads-minus true s bits h = h
Reads-minus false s bits h = h

Reads-letter :
    (on : Bool) (c : ℕ) (s : Text) (bits : ℕ)
    → (c == b'+') ≡ false
    → (c == b'-') ≡ false
    → replay on (collapse_from (sign_of on) s) (effect on c bits) ≡ replay on s (effect on c bits)
    → Reads on c s bits
unfolding replay collapse_from
Reads-letter true c s bits f g h = rw (f, g) (rw f h)
Reads-letter false c s bits f g h = rw (f, g) (rw (f, g) h)

replay-collapse_from :
    (on : Bool) (s : Text) (bits : ℕ)
    → replay on (collapse_from (sign_of on) s) bits ≡ replay on s bits
unfolding replay collapse_from
replay-collapse_from on [] bits = refl
replay-collapse_from on (c ∷ s) bits =
    let plus = replay-collapse_from true s bits in
    let minus = replay-collapse_from false s bits in
    let next = replay-collapse_from on s (effect on c bits) in
    elim (Bool-cases (c == b'+')) [
      | inl t ↦
          subst (λ d. Reads on d s bits) (sym ((==_iff c b'+').0 t)) (Reads-plus on s bits plus)
      | inr f ↦ elim (Bool-cases (c == b'-')) [
        | inl t ↦
            subst (λ d. Reads on d s bits) (sym ((==_iff c b'-').0 t)) (Reads-minus on s bits minus)
        | inr g ↦ Reads-letter on c s bits f g next
      ]
    ]

-- Before the first sign, a NUL would be dropped too, which stands for no mode.
Starts : ℕ → Text → ℕ → Type 0
Starts c s bits = replay true (collapse_from 0 (c ∷ s)) bits ≡ replay true (c ∷ s) bits

Starts-sign : (s : Text) (bits : ℕ) → Starts b'+' s bits × Starts b'-' s bits
unfolding Starts replay collapse_from
Starts-sign s bits = (replay-collapse_from true s bits, replay-collapse_from false s bits)

Starts-letter :
    (c : ℕ) (s : Text) (bits : ℕ)
    → (c == b'+') ≡ false
    → (c == b'-') ≡ false
    → ((b : ℕ) → replay true (collapse_from 0 s) b ≡ replay true s b)
    → Starts c s bits
unfolding Starts replay collapse_from effect
Starts-letter c s bits f g h = elim (Bool-cases (c == 0)) [
  | inr n ↦ rw (f, g, n) (rw (f, g) (h (effect true c bits)))
  | inl z ↦
      rw (f, g, z)
        (let e : effect true c bits ≡ bits = ground (arith, z) in
          h bits ∙ ap (replay true s) (sym e))
]

replay-collapse_start :
    (s : Text) (bits : ℕ) → replay true (collapse_from 0 s) bits ≡ replay true s bits
unfolding Starts collapse_from
replay-collapse_start [] bits = refl
replay-collapse_start (c ∷ s) bits =
    let signs = Starts-sign s bits in
    elim (Bool-cases (c == b'+')) [
      | inl t ↦ subst (λ d. Starts d s bits) (sym ((==_iff c b'+').0 t)) signs.0
      | inr f ↦ elim (Bool-cases (c == b'-')) [
        | inl t ↦ subst (λ d. Starts d s bits) (sym ((==_iff c b'-').0 t)) signs.1
        | inr g ↦ Starts-letter c s bits f g (replay-collapse_start s)
      ]
    ]

-- The signs that collapse_signs takes out are redundant: its result, read as a mode string,
-- makes the same changes.
pub replay-collapse_signs :
    (s : Text) (bits : ℕ) → replay true (collapse_signs s) bits ≡ replay true s bits
unfolding collapse_signs
replay-collapse_signs s bits = replay-collapse_start s bits
