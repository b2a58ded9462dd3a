-- ===== src/Packet/Spec.antt =====
-- What `dopacket` of src/packet.c does with a stream, told by its lines: CR or LF ends each, the
-- empty ones are skipped, and no more than CLIENT_BUFSIZE - 1 bytes of one are kept.
use igniteircd.Prelude.{
  ℕ, inl, inr, ◌+◌, ◌≤◌, ◌≡◌, refl, sym, ap, ◌∙◌, Bool, true, false, List, [], ◌∷◌, ◌++◌, Text,
  length, take, ltb, if◌then◌else◌, Bool-cases, arith, take-append_short, take_all, length-append,
}
use mathlib.Core.List.{append-nil, append_assoc}
use igniteircd.Packet.{
  room, Session, Parser, Reading, exited, reading, is_line_end, store, after_parse, end_line,
  read_char, read_on,
}

-- The pieces between the line ends: the first one and the others.
abbrev pub pieces : Text → Text × List Text
pieces [] = ([], [])
pieces (c ∷ s) = let (p, ps) = pieces s in if is_line_end c then ([], p ∷ ps) else (c ∷ p, ps)

pieces_end :
    (g : ℕ) (s : Text) → is_line_end g ≡ true → pieces (g ∷ s) ≡ ([], (pieces s).0 ∷ (pieces s).1)
pieces_end g s e = rw e refl

pieces_in :
    (g : ℕ) (s : Text) → is_line_end g ≡ false → pieces (g ∷ s) ≡ (g ∷ (pieces s).0, (pieces s).1)
pieces_in g s e = rw e refl

whole : (b : Text) → length b ≤ room → b ≡ take room (b ++ [])
whole b h = sym (take_all room b h) ∙ ap (take room) (sym (append-nil b))

-- What is in the buffer leaves room for the NUL.
abbrev pub Fits {ℓ} : {W : Type ℓ} → Reading W → Type 0
Fits (exited s) = Unit
Fits (reading s buffer) = length buffer ≤ room

pub length-store : (b : Text) (g : ℕ) → length b ≤ room → length (store b g) ≤ room
unfolding store
length-store b g h = elim (Bool-cases (ltb (length b) room)) [
  | inl t ↦ rw t (ground (arith, length-append b (g ∷ []), t))
  | inr f ↦ rw f h
]

take-store :
    (b : Text) (g : ℕ) (p : Text)
    → length b ≤ room
    → take room (store b g ++ p) ≡ take room (b ++ g ∷ p)
unfolding store
take-store b g p h = elim (Bool-cases (ltb (length b) room)) [
  | inl t ↦ rw t (ap (take room) (append_assoc b (g ∷ []) p))
  | inr f ↦
      let full : room ≤ length b = ground (arith, f) in
      rw f (take-append_short room b p full ∙ sym (take-append_short room b (g ∷ p) full))
]

module _ {ℓ} {W : Type ℓ} (p : Parser W) where
  -- A line is parsed, unless it is empty.
  abbrev pub take_line : Session W → Text → Reading W
  take_line s [] = reading s []
  take_line s (c ∷ line) = end_line p s (c ∷ line)

  -- All pieces but the last are lines; the last one stays in the buffer.
  abbrev pub deliver : Reading W → Text → List Text → Reading W
  deliver (exited s) piece more = exited s
  deliver (reading s buffer) piece [] = reading s (take room (buffer ++ piece))
  deliver (reading s buffer) piece (next ∷ more) =
      deliver (take_line s (take room (buffer ++ piece))) next more

  after_parse-Fits : (s : Session W) (r : W × Bool) → Fits (after_parse p s r)
  unfolding after_parse
  after_parse-Fits s (w, true) = tt
  after_parse-Fits s (w, false) = elim (Bool-cases (p.is_dead w)) [
    | inl t ↦ rw t tt
    | inr f ↦ rw f (omega arith)
  ]

  pub take_line-Fits : (s : Session W) (line : Text) → Fits (take_line s line)
  unfolding end_line
  take_line-Fits s [] = omega arith
  take_line-Fits s (c ∷ line) =
      let s' : Session W = record s {
        receive_m = s.receive_m + 1;
        me_receive_m = s.me_receive_m + 1;
      } in
      after_parse-Fits s' (p.parse s' (c ∷ line))

  pub read_char-end :
      (s : Session W) (b : Text) (g : ℕ) → is_line_end g ≡ true → read_char p s b g ≡ take_line s b
  unfolding read_char
  read_char-end s [] g e = rw e refl
  read_char-end s (c ∷ b) g e = rw e refl

  pub read_char-store :
      (s : Session W) (b : Text) (g : ℕ)
      → is_line_end g ≡ false
      → read_char p s b g ≡ reading s (store b g)
  unfolding read_char
  read_char-store s [] g e = rw e refl
  read_char-store s (c ∷ b) g e = rw e refl

  deliver-store :
      (s : Session W) (b : Text) (g : ℕ) (piece : Text) (more : List Text)
      → length b ≤ room
      → deliver (reading s (store b g)) piece more ≡ deliver (reading s b) (g ∷ piece) more
  deliver-store s b g piece [] h = ap (reading s) (take-store b g piece h)
  deliver-store s b g piece (next ∷ more) h =
      ap (λ l. deliver (take_line s l) next more) (take-store b g piece h)

  -- From any state of the buffer that leaves room for the NUL, reading the input byte by byte is
  -- the same as cutting it at CR and LF, parsing all pieces but the last that are not empty, the
  -- first one behind what is in the buffer, each cut off at CLIENT_BUFSIZE - 1 bytes, and keeping
  -- the last piece in the buffer. Nothing is parsed after a line that ended the connection.
  pub read_on_lem :
      (r : Reading W) (input : Text)
      → Fits r
      → read_on p r input ≡ deliver r ((pieces input).0) ((pieces input).1)
  unfolding read_on
  read_on_lem (exited s) input fits = refl
  read_on_lem (reading s b) [] fits = ap (reading s) (whole b fits)
  read_on_lem (reading s b) (g ∷ input) fits = elim (Bool-cases (is_line_end g)) [
    | inl e ↦
        ap (λ r. read_on p r input) (read_char-end s b g e ∙ ap (take_line s) (whole b fits))
        ∙ read_on_lem (take_line s (take room (b ++ []))) input
            (take_line-Fits s (take room (b ++ [])))
        ∙ ap (λ ps. deliver (reading s b) (ps.0) (ps.1)) (sym (pieces_end g input e))
    | inr e ↦
        ap (λ r. read_on p r input) (read_char-store s b g e)
        ∙ read_on_lem (reading s (store b g)) input (length-store b g fits)
        ∙ deliver-store s b g ((pieces input).0) ((pieces input).1) fits
        ∙ ap (λ ps. deliver (reading s b) (ps.0) (ps.1)) (sym (pieces_in g input e))
  ]
