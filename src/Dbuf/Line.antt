-- ===== src/Dbuf/Line.antt =====
-- `dbuf_flush` and `dbuf_getmsg` of src/dbuf.c: the next line of the stream.
use igniteircd.Prelude.{
  ℕ, zero, suc, ◌-◌, ◌≤◌, ◌<◌, ◌≡◌, refl, sym, ap, ◌∙◌, inl, inr, false, Option, none, some, List,
  [], ◌∷◌, ◌++◌, Text, All, length, take, drop, arith, ltb, ◌==◌, if◌then◌else◌, Bool-cases,
  length-append, take-append, take_all, subst,
}
use igniteircd.Chars.Tables.{is_eol}
use igniteircd.Dbuf.{
  min, Dbuf, DbufBuffer, Pool, dbuf_flush, line_part, line_loop, take_line, dbuf_getmsg,
  dbuf_delete,
}
use igniteircd.Dbuf.Bytes.{chain_bytes, stream, IsValid, IsAccounted}
use igniteircd.Dbuf.Delete.{IsBacked, stream-dbuf_delete}
use igniteircd.Dbuf.Flush.{drop_eols, dbuf_flush-Flushes}

nil_of_length : (s : Text) → length s ≡ 0 → s ≡ []
nil_of_length [] e = refl
nil_of_length (c ∷ s) e = absurd (omega arith)

take_line-none : (p : Pool) (dyn : Dbuf) → (p, dyn, none) ≡ take_line p dyn none
unfolding take_line
take_line-none p dyn = refl

-- A text splits at its first end of line.
line_part-stop : (w m : Text) → length (line_part w) < length w → line_part (w ++ m) ≡ line_part w
unfolding line_part
line_part-stop [] m h = absurd (omega arith)
line_part-stop (c ∷ w) m h = elim (Bool-cases (is_eol c)) [
  | inl y ↦ rw y
  | inr n ↦ rw n (ap (λ t. c ∷ t) (line_part-stop w m (ground arith)))
]

length-line_part-le : (w : Text) → length (line_part w) ≤ length w
unfolding line_part
length-line_part-le [] = omega arith
length-line_part-le (c ∷ w) = ground (arith, length-line_part-le w)

line_part-pass :
    (w m : Text)
    → length (line_part w) ≡ length w
    → (line_part w ≡ w) × (line_part (w ++ m) ≡ w ++ line_part m)
unfolding line_part
line_part-pass [] m h = (refl, refl)
line_part-pass (c ∷ w) m h = elim (Bool-cases (is_eol c)) [
  | inl y ↦ absurd (ground arith)
  | inr n ↦
      let (a, b) = line_part-pass w m (ground arith) in rw n (ap (λ t. c ∷ t) a, ap (λ t. c ∷ t) b)
]

-- The first line of a text, if the text has an end of line.
abbrev pub first_line : Text → Option Text
first_line t = if ltb (length (line_part t)) (length t) then some (line_part t) else none

first_line-stop :
    (w m : Text) → length (line_part w) < length w → first_line (w ++ m) ≡ some (line_part w)
first_line-stop w m h = rw (line_part-stop w m h) (ground (arith, length-append w m))

first_line-pass :
    (w m : Text)
    → length (line_part w) ≡ length w
    → first_line (w ++ m)
      ≡ elim (first_line m) [ none ↦ none | some line ↦ some (line_part w ++ line) ]
first_line-pass w m h =
    let (a, b) = line_part-pass w m h in
    ground (arith, a, b, length-append w m, length-append w (line_part m))

line_loop-first_line :
    (chain : List DbufBuffer) (n : ℕ) → line_loop chain n ≡ first_line (take n (chain_bytes chain))
unfolding line_loop line_part
line_loop-first_line [] n = rw (take_all {A = ℕ} n [] (omega arith))
line_loop-first_line (d ∷ chain) n = elim (Bool-cases (n == 0)) [
  | inl z ↦ let none_left : n ≡ 0 = ground arith in rw none_left
  | inr z ↦
      let w = take n d.bytes in
      rw (take-append n d.bytes (chain_bytes chain))
        (elim (Bool-cases (ltb (length (line_part w)) (length w))) [
          | inl l ↦
              rw (z, l)
                (sym (first_line-stop w (take (n - length w) (chain_bytes chain)) (ground arith)))
          | inr l ↦
              let whole : length (line_part w) ≡ length w = ground (arith, length-line_part-le w) in
              rw (z, l, line_loop-first_line chain (n - length (line_part w)), whole)
                (sym (first_line-pass w (take (n - length w) (chain_bytes chain)) whole))
        ])
]

take-min : (n : ℕ) (s : Text) → take (min (length s) n) s ≡ take n s
take-min n s = elim (Bool-cases (ltb n (length s))) [
  | inl l ↦ rw l
  | inr l ↦
      let less : length s ≤ n = ground arith in
      rw l (take_all (length s) s (omega arith) ∙ sym (take_all n s less))
]

-- A line is cut off with the ends of lines behind it.
abbrev pub cut_line : Text → Option Text → Text
cut_line s none = s
cut_line s (some line) = drop_eols (drop (length line) s)

-- What a client reads next: the first line behind the ends of lines in front, if it ends
-- within `n` bytes.
abbrev pub next_line : Text → ℕ → Option Text
next_line bytes n = first_line (take n (drop_eols bytes))

take_line_lem :
    (p : Pool) (dyn : Dbuf) (o : Option Text)
    → IsValid dyn
    → IsBacked p dyn
    → ((take_line p dyn o).2 ≡ o)
      × (stream (take_line p dyn o).1 ≡ cut_line (stream dyn) o)
      × IsValid (take_line p dyn o).1
      × IsAccounted p dyn.head (take_line p dyn o).0 (take_line p dyn o).1.head
unfolding take_line
take_line_lem p dyn none v u = (refl, refl, v, refl)
take_line_lem p dyn (some line) v u =
    let del = dbuf_delete p dyn (length line) in
    let (left, dv, dc) = stream-dbuf_delete p dyn (length line) v u in
    let (flushed, fv, fc) = dbuf_flush-Flushes del.0 del.1 dv (omega (arith, dc, u)) in
    (refl, flushed ∙ ap drop_eols left, fv, omega (arith, dc, fc))

dbuf_getmsg-take_line :
    (p : Pool) (dyn : Dbuf) (n : ℕ)
    → IsValid (dbuf_flush p dyn).1
    → dbuf_getmsg p dyn n
      ≡ take_line
          (dbuf_flush p dyn).0
          (dbuf_flush p dyn).1
          (first_line (take n (stream (dbuf_flush p dyn).1)))
unfolding dbuf_getmsg line_part
dbuf_getmsg-take_line p dyn n v = elim (Bool-cases ((dbuf_flush p dyn).1.length == 0)) [
  | inl z ↦
      let empty : stream (dbuf_flush p dyn).1 ≡ [] = nil_of_length _ (ground (arith, v.sized)) in
      let nothing : first_line (take n (stream (dbuf_flush p dyn).1)) ≡ none =
        ap (λ s. first_line (take n s)) empty
        ∙ ap first_line (take_all {A = ℕ} n [] (omega arith)) in
      rw (z, nothing) (take_line-none (dbuf_flush p dyn).0 (dbuf_flush p dyn).1)
  | inr z ↦
      let s = stream (dbuf_flush p dyn).1 in
      rw z (
        ap (take_line (dbuf_flush p dyn).0 (dbuf_flush p dyn).1) (
          line_loop-first_line (dbuf_flush p dyn).1.head (min (dbuf_flush p dyn).1.length n)
          ∙ ap first_line (ap (λ l. take (min l n) s) v.sized ∙ take-min n s)))
]

pub dbuf_getmsg_lem :
    (p : Pool) (dyn : Dbuf) (n : ℕ)
    → IsValid dyn
    → IsBacked p dyn
    → ((dbuf_getmsg p dyn n).2 ≡ next_line (stream dyn) n)
      × (stream (dbuf_getmsg p dyn n).1
          ≡ cut_line (drop_eols (stream dyn)) (next_line (stream dyn) n))
      × IsValid (dbuf_getmsg p dyn n).1
      × IsAccounted p dyn.head (dbuf_getmsg p dyn n).0 (dbuf_getmsg p dyn n).1.head
dbuf_getmsg_lem p dyn n v u =
    let f = dbuf_flush p dyn in
    let (flushed, fv, fc) = dbuf_flush-Flushes p dyn v u in
    let line = first_line (take n (stream f.1)) in
    let (got, left, lv, lc) = take_line_lem f.0 f.1 line fv (omega (arith, fc, u)) in
    let same : line ≡ next_line (stream dyn) n = ap (λ s. first_line (take n s)) flushed in
    rw (dbuf_getmsg-take_line p dyn n fv) (
      got ∙ same,
      left ∙ ap (λ s. cut_line s line) flushed ∙ ap (cut_line (drop_eols (stream dyn))) same,
      lv,
      omega (arith, fc, lc),
    )

All-line_part : (w : Text) → All (λ c. is_eol c ≡ false) (line_part w)
unfolding line_part
All-line_part [] = tt
All-line_part (c ∷ w) = elim (Bool-cases (is_eol c)) [
  | inl y ↦ rw y tt
  | inr n ↦ rw n (n, All-line_part w)
]

length-take-le : (n : ℕ) (s : Text) → length (take n s) ≤ n
length-take-le zero s = omega arith
length-take-le (suc n) [] = omega arith
length-take-le (suc n) (c ∷ s) = omega (arith, length-take-le n s)

drop_eols_head : (s : Text) (c : ℕ) (rest : Text) → drop_eols s ≡ c ∷ rest → is_eol c ≡ false
drop_eols_head [] c rest e = cc
drop_eols_head (d ∷ s) c rest e = elim (Bool-cases (is_eol d)) [
  | inl y ↦ drop_eols_head s c rest (ground arith)
  | inr n ↦ let same : d ≡ c = ground arith in subst (λ b. is_eol b ≡ false) same n
]

line_part_pos :
    (n : ℕ) (s t : Text)
    → drop_eols s ≡ t
    → length (line_part (take n t)) < length (take n t)
    → 0 < length (line_part (take n t))
unfolding line_part
line_part_pos zero s t e h = absurd (omega arith)
line_part_pos (suc n) s [] e h = absurd (omega arith)
line_part_pos (suc n) s (c ∷ t) e h = rw (drop_eols_head s c t e) (omega arith)

-- A line that a call gives is not empty, holds no end of line, and is shorter than the limit,
-- so that its NUL fits in a buffer of that size.
pub dbuf_getmsg-bounds :
    (p : Pool) (dyn : Dbuf) (n : ℕ) (line : Text)
    → IsValid dyn
    → IsBacked p dyn
    → (dbuf_getmsg p dyn n).2 ≡ some line
    → (0 < length line) × (length line < n) × All (λ c. is_eol c ≡ false) line
dbuf_getmsg-bounds p dyn n line v u e =
    let w = take n (drop_eols (stream dyn)) in
    let found : next_line (stream dyn) n ≡ some line = sym (dbuf_getmsg_lem p dyn n v u).0 ∙ e in
    elim (Bool-cases (ltb (length (line_part w)) (length w))) [
      | inl l ↦
          let same : line_part w ≡ line = ground arith in
          let less : length (line_part w) < length w = ground arith in
          let short = length-take-le n (drop_eols (stream dyn)) in
          subst (λ t. (0 < length t) × (length t < n) × All (λ c. is_eol c ≡ false) t) same
            (
              line_part_pos n (stream dyn) (drop_eols (stream dyn)) refl less,
              omega (arith, less, short),
              All-line_part w,
            )
      | inr l ↦ absurd (ground arith)
    ]
