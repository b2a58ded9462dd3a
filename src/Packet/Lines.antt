-- ===== src/Packet/Lines.antt =====
-- How the reads of a connection in src/packet.c are cut, and what `parse` is given.
use igniteircd.Prelude.{
  ℕ, inl, inr, ◌+◌, ◌<◌, ◌≤◌, ◌≡◌, refl, ap, ◌∙◌, Bool, true, false, [], ◌∷◌, ◌++◌, Text, length,
  ltb, if◌then◌else◌, Bool-cases, All, arith,
}
use igniteircd.Packet.{
  room, Session, Parser, Reading, exited, reading, is_line_end, store, after_parse, end_line,
  read_char, read_on,
}
use igniteircd.Packet.Spec.{length-store}

-- A line as `parse` gets it: it is not empty, fits in the buffer, and holds no CR and no LF.
abbrev pub IsLine : Text → Type 0
IsLine line = (0 < length line) × (length line ≤ room) × All (λ c. is_line_end c ≡ false) line

-- The same of what stands in the buffer, which may be empty.
abbrev pub IsPending {ℓ} : {W : Type ℓ} → Reading W → Type 0
IsPending (exited s) = Unit
IsPending (reading s buffer) = (length buffer ≤ room) × All (λ c. is_line_end c ≡ false) buffer

All-last :
    (b : Text) (g : ℕ)
    → All (λ c. is_line_end c ≡ false) b
    → is_line_end g ≡ false
    → All (λ c. is_line_end c ≡ false) (b ++ g ∷ [])
All-last [] g h e = (e, tt)
All-last (c ∷ b) g h e = (h.0, All-last b g h.1 e)

All-store :
    (b : Text) (g : ℕ)
    → All (λ c. is_line_end c ≡ false) b
    → is_line_end g ≡ false
    → All (λ c. is_line_end c ≡ false) (store b g)
unfolding store
All-store b g h e = elim (Bool-cases (ltb (length b) room)) [
  | inl t ↦ rw t (All-last b g h e)
  | inr f ↦ rw f h
]

module _ {ℓ} {W : Type ℓ} (p : Parser W) where
  -- It makes no difference how the stream is cut into reads: reading two parts one after the
  -- other is reading them at once, also where a line is cut or a connection ends in the first.
  pub read_on-append :
      (r : Reading W) (first second : Text)
      → read_on p r (first ++ second) ≡ read_on p (read_on p r first) second
  unfolding read_on
  read_on-append (exited s) first second = refl
  read_on-append (reading s b) [] second = refl
  read_on-append (reading s b) (g ∷ first) second = read_on-append (read_char p s b g) first second

  after_parse-IsPending : (s : Session W) (r : W × Bool) → IsPending (after_parse p s r)
  unfolding after_parse
  after_parse-IsPending s (w, true) = tt
  after_parse-IsPending s (w, false) = elim (Bool-cases (p.is_dead w)) [
    | inl t ↦ rw t tt
    | inr f ↦ rw f (omega arith, tt)
  ]

  read_char-IsPending :
      (s : Session W) (b : Text) (g : ℕ) → IsPending (reading s b) → IsPending (read_char p s b g)
  unfolding read_char end_line
  read_char-IsPending s [] g h = elim (Bool-cases (is_line_end g)) [
    | inl e ↦ rw e h
    | inr e ↦ rw e (length-store [] g h.0, All-store [] g tt e)
  ]
  read_char-IsPending s (c ∷ b) g h = elim (Bool-cases (is_line_end g)) [
    | inl e ↦
        let s' : Session W = record s {
          receive_m = s.receive_m + 1;
          me_receive_m = s.me_receive_m + 1;
        } in
        rw e (after_parse-IsPending s' (p.parse s' (c ∷ b)))
    | inr e ↦ rw e (length-store (c ∷ b) g h.0, All-store (c ∷ b) g h.1 e)
  ]

-- Two parsers that do the same with each line.
abbrev pub AgreeOnLines {ℓ} : {W : Type ℓ} → Parser W → Parser W → Type ℓ
AgreeOnLines {W} p q =
    ((s : Session W) (line : Text) → IsLine line → p.parse s line ≡ q.parse s line)
    × ((w : W) → p.is_dead w ≡ q.is_dead w)
    × ((w : W) → p.exit_client w ≡ q.exit_client w)

module _ {ℓ} {W : Type ℓ} (p : Parser W) (q : Parser W) (agree : AgreeOnLines p q) where
  after_parse-agree : (s : Session W) (r : W × Bool) → after_parse p s r ≡ after_parse q s r
  unfolding after_parse
  after_parse-agree s (w, true) = refl
  after_parse-agree s (w, false) = rw (agree.1 w, agree.2 w) refl

  read_char-agree :
      (s : Session W) (b : Text) (g : ℕ)
      → IsPending (reading s b)
      → read_char p s b g ≡ read_char q s b g
  unfolding read_char end_line
  read_char-agree s [] g h = refl
  read_char-agree s (c ∷ b) g h =
      let s' : Session W = record s {
        receive_m = s.receive_m + 1;
        me_receive_m = s.me_receive_m + 1;
      } in
      ap (λ r. if is_line_end g then r else reading s (store (c ∷ b) g))
        (ap (after_parse p s') (agree.0 s' (c ∷ b) (omega arith, h.0, h.1))
          ∙ after_parse-agree s' (q.parse s' (c ∷ b)))

  -- `parse` is given nothing but lines that are not empty, have at most CLIENT_BUFSIZE - 1 bytes
  -- and hold no CR and no LF: parsers that agree on these lines, and on dead sockets and exits,
  -- read any input the same way. What was in the buffer fits and holds no CR and no LF.
  pub read_on_agree :
      (r : Reading W) (input : Text) → IsPending r → read_on p r input ≡ read_on q r input
  unfolding read_on
  read_on_agree (exited s) input h = refl
  read_on_agree (reading s b) [] h = refl
  read_on_agree (reading s b) (g ∷ input) h =
      read_on_agree (read_char p s b g) input (read_char-IsPending p s b g h)
      ∙ ap (λ r. read_on q r input) (read_char-agree s b g h)
