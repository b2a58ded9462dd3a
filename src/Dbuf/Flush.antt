-- ===== src/Dbuf/Flush.antt =====
-- `dbuf_flush` of src/dbuf.c takes the ends of lines off the front of a stream.
use igniteircd.Prelude.{
  ℕ, ◌+◌, ◌-◌, ◌≤◌, ◌≡◌, refl, sym, ap, ◌∙◌, inl, inr, List, [], ◌∷◌, ◌++◌, Text, All, length,
  arith, if◌then◌else◌, Bool-cases, length-append,
}
use igniteircd.Chars.Tables.{is_eol}
use igniteircd.Dbuf.{Dbuf, DbufBuffer, Pool, dbuf_free, strip_eols, flush_loop, dbuf_flush}
use igniteircd.Dbuf.Bytes.{chain_bytes, stream, IsSolid, IsValid, IsAccounted}
use igniteircd.Dbuf.Delete.{IsBacked, used-dbuf_free}

-- The text behind the ends of lines at its front.
abbrev pub drop_eols : Text → Text
drop_eols [] = []
drop_eols (c ∷ bytes) = if is_eol c then drop_eols bytes else c ∷ bytes

strip_eols_lem :
    (bytes : Text)
    → ((strip_eols bytes).1 ≡ drop_eols bytes)
      × ((strip_eols bytes).0 + length (strip_eols bytes).1 ≡ length bytes)
unfolding strip_eols
strip_eols_lem [] = (refl, refl)
strip_eols_lem (c ∷ bytes) =
    let (e, k) = strip_eols_lem bytes in
    elim (Bool-cases (is_eol c)) [
      | inl y ↦ rw y (e, omega (arith, k))
      | inr n ↦ rw n (refl, omega arith)
    ]

drop_eols-append_none : (b s : Text) → drop_eols b ≡ [] → drop_eols (b ++ s) ≡ drop_eols s
drop_eols-append_none [] s e = refl
drop_eols-append_none (c ∷ b) s e = elim (Bool-cases (is_eol c)) [
  | inl y ↦ rw y (drop_eols-append_none b s (ground arith))
  | inr n ↦ ground arith
]

drop_eols-append_some :
    (b s rest : Text) (c : ℕ) → drop_eols b ≡ c ∷ rest → drop_eols (b ++ s) ≡ (c ∷ rest) ++ s
drop_eols-append_some [] s rest c e = cc
drop_eols-append_some (d ∷ b) s rest c e = elim (Bool-cases (is_eol d)) [
  | inl y ↦ rw y (drop_eols-append_some b s rest c (ground arith))
  | inr n ↦ let same : d ∷ b ≡ c ∷ rest = ground arith in rw n (ap (λ t. t ++ s) same)
]

abbrev Flushes : Pool → List DbufBuffer → Pool × Dbuf → Type 0
Flushes p chain (q, dyn') =
    (stream dyn' ≡ drop_eols (chain_bytes chain)) × IsValid dyn' × IsAccounted p chain q dyn'.head

flush_loop-Flushes :
    (p : Pool) (chain : List DbufBuffer) (len : ℕ)
    → len ≡ length (chain_bytes chain)
    → All IsSolid chain
    → length chain ≤ p.used
    → Flushes p chain (flush_loop p chain len)
unfolding flush_loop
flush_loop-Flushes p [] len e s u = (refl, record { sized = refl; solid = tt }, refl)
flush_loop-Flushes p (d ∷ chain) len e s u = flushed (strip_eols d.bytes).1 refl (λ k.
    flush_loop-Flushes (dbuf_free p) chain (len - (strip_eols d.bytes).0) k s.1
      (omega (arith, used-dbuf_free p, u)))
  where
    facts :
        ((strip_eols d.bytes).1 ≡ drop_eols d.bytes)
        × ((strip_eols d.bytes).0 + length (strip_eols d.bytes).1 ≡ length d.bytes)
    facts = strip_eols_lem d.bytes

    size : len ≡ length d.bytes + length (chain_bytes chain)
    size = omega (arith, e, length-append d.bytes (chain_bytes chain))

    flushed :
        (rest : Text)
        → (strip_eols d.bytes).1 ≡ rest
        → (len - (strip_eols d.bytes).0 ≡ length (chain_bytes chain)
            → Flushes
                (dbuf_free p)
                chain
                (flush_loop (dbuf_free p) chain (len - (strip_eols d.bytes).0)))
        → Flushes p (d ∷ chain) (flush_loop p (d ∷ chain) len)
    flushed [] r next =
        let (bytes, valid, counted) = next (omega (arith, size, facts.1, ap length r)) in
        rw (r, flush_loop)
          (
            bytes ∙ sym (drop_eols-append_none d.bytes (chain_bytes chain) (sym facts.0 ∙ r)),
            valid,
            omega (arith, counted, used-dbuf_free p, u),
          )
    flushed (c ∷ rest) r next =
        rw (r, flush_loop)
          (
            sym (drop_eols-append_some d.bytes (chain_bytes chain) rest c (sym facts.0 ∙ r)),
            record {
              sized =
                  omega (arith, size, facts.1, ap length r, length-append rest (chain_bytes chain));
              solid = ((omega arith, omega (arith, s.0.1, facts.1, ap length r)), s.1);
            },
            refl,
          )

dbuf_flush_lem :
    (p : Pool) (dyn : Dbuf) (chain : List DbufBuffer)
    → dyn.head ≡ chain
    → IsValid dyn
    → dbuf_flush p dyn ≡ flush_loop p dyn.head dyn.length
unfolding dbuf_flush flush_loop
dbuf_flush_lem p dyn [] e v = ground (arith, v.sized, ap chain_bytes e)
dbuf_flush_lem p dyn (d ∷ chain) e v = ground arith

pub dbuf_flush-Flushes :
    (p : Pool) (dyn : Dbuf) → IsValid dyn → IsBacked p dyn → Flushes p dyn.head (dbuf_flush p dyn)
dbuf_flush-Flushes p dyn v u =
    rw (dbuf_flush_lem p dyn dyn.head refl v)
      (flush_loop-Flushes p dyn.head dyn.length v.sized v.solid u)
