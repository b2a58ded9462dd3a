-- ===== src/Dbuf/Put.antt =====
-- `dbuf_put` of src/dbuf.c appends to the stream.
use igniteircd.Prelude.{
  ℕ, zero, suc, ◌+◌, ◌-◌, ◌≤◌, ◌≡◌, refl, sym, ap, ◌∙◌, true, false, List, [], ◌∷◌, ◌++◌, Text, All,
  length, take, drop, arith, ◌==◌, if◌then◌else◌, length-append, take-append-drop, length-take,
  length-drop,
}
use mathlib.Core.List.{append-nil, append_assoc}
use igniteircd.Dbuf.{
  min, Dbuf, DbufBuffer, Pool, dbuf_size, dbuf_alloc, room, fill, put_loop, put_tail, dbuf_put,
}
use igniteircd.Dbuf.Bytes.{chain_bytes, stream, IsSolid, IsValid, IsAccounted}

dbuf_alloc_lem :
    (p : Pool)
    → ((dbuf_alloc p).0.used ≡ p.used + 1) × ((dbuf_alloc p).1 ≡ record { start = 0; bytes = [] })
unfolding dbuf_alloc
dbuf_alloc_lem p = ground arith

module _ (d : DbufBuffer) (buf : Text) where
  fill_bytes : (fill d buf).0.bytes ++ (fill d buf).1 ≡ d.bytes ++ buf
  unfolding fill
  fill_bytes =
      append_assoc d.bytes (take (min (room d) (length buf)) buf)
        (drop (min (room d) (length buf)) buf)
      ∙ ap (λ t. d.bytes ++ t) (take-append-drop (min (room d) (length buf)) buf)

  fill_bounds :
      d.start + length d.bytes ≤ dbuf_size
      → ((fill d buf).0.start + length (fill d buf).0.bytes ≤ dbuf_size)
        × (length (fill d buf).1 ≡ length buf - room d)
        × (length d.bytes ≤ length (fill d buf).0.bytes)
        × (length (fill d buf).0.bytes + length (fill d buf).1 ≡ length d.bytes + length buf)
  unfolding fill room
  fill_bounds h = grind (
    arith,
    length-append d.bytes (take (min (room d) (length buf)) buf),
    length-take (min (room d) (length buf)) buf,
    length-drop (min (room d) (length buf)) buf,
  )

-- What a round of puts has to give.
abbrev Puts : Pool → List DbufBuffer → Text → Pool × List DbufBuffer → Type 0
Puts p chain buf (q, chain') =
    (chain_bytes chain' ≡ chain_bytes chain ++ buf)
    × All IsSolid chain'
    × IsAccounted p chain q chain'

put_loop-nil-Puts :
    (fuel : ℕ) (p : Pool) (buf : Text) → length buf ≤ fuel → Puts p [] buf (put_loop fuel p [] buf)
unfolding put_loop dbuf_alloc room
put_loop-nil-Puts fuel p [] h = (refl, tt, refl)
put_loop-nil-Puts zero p (b ∷ buf) h = absurd (omega arith)
put_loop-nil-Puts (suc fuel) p (b ∷ buf) h =
    let d : DbufBuffer = record { start = 0; bytes = [] } in
    let bounds = fill_bounds d (b ∷ buf) (omega arith) in
    let (bytes, solid, counted) =
      put_loop-nil-Puts fuel (dbuf_alloc p).0 (fill d (b ∷ buf)).1 (omega (arith, bounds)) in
    (
      ap (λ t. (fill d (b ∷ buf)).0.bytes ++ t) bytes ∙ fill_bytes d (b ∷ buf),
      ((omega (arith, bounds), bounds.0), solid),
      omega (arith, counted, (dbuf_alloc_lem p).0),
    )

put_loop-last-Puts :
    (fuel : ℕ) (p : Pool) (d : DbufBuffer) (buf : Text)
    → suc (length buf) ≤ fuel
    → IsSolid d
    → Puts p (d ∷ []) buf (put_loop fuel p (d ∷ []) buf)
unfolding put_loop
put_loop-last-Puts fuel p d [] h s = (sym (append-nil (d.bytes ++ [])), (s, tt), refl)
put_loop-last-Puts zero p d (b ∷ buf) h s = absurd (omega arith)
put_loop-last-Puts (suc fuel) p d (b ∷ buf) h s =
    let bounds = fill_bounds d (b ∷ buf) s.1 in
    let (bytes, solid, counted) =
      put_loop-nil-Puts fuel p (fill d (b ∷ buf)).1 (omega (arith, bounds)) in
    (
      ap (λ t. (fill d (b ∷ buf)).0.bytes ++ t) bytes
          ∙ fill_bytes d (b ∷ buf)
          ∙ ap (λ t. t ++ b ∷ buf) (sym (append-nil d.bytes)),
      ((omega (arith, bounds, s.0), bounds.0), solid),
      omega (arith, counted),
    )

put_tail-Puts :
    (fuel : ℕ) (p : Pool) (d : DbufBuffer) (chain : List DbufBuffer) (buf : Text)
    → suc (length buf) ≤ fuel
    → All IsSolid (d ∷ chain)
    → Puts p (d ∷ chain) buf (put_tail fuel p (d ∷ chain) buf)
unfolding put_tail
put_tail-Puts fuel p d [] buf h s = put_loop-last-Puts fuel p d buf h s.0
put_tail-Puts fuel p d (e ∷ chain) buf h s =
    let (bytes, solid, counted) = put_tail-Puts fuel p e chain buf h s.1 in
    (
      ap (λ t. d.bytes ++ t) bytes ∙ sym (append_assoc d.bytes (e.bytes ++ chain_bytes chain) buf),
      (s.0, solid),
      omega (arith, counted),
    )

put_chain-Puts :
    (p : Pool) (chain : List DbufBuffer) (len : ℕ) (buf : Text)
    → len ≡ length (chain_bytes chain)
    → All IsSolid chain
    → let fuel = length chain + length buf in
      Puts p chain buf (if len == 0 then put_loop fuel p chain buf else put_tail fuel p chain buf)
put_chain-Puts p [] len buf e s =
    let empty : (len == 0) ≡ true = ground arith in
    rw empty (put_loop-nil-Puts (0 + length buf) p buf (omega arith))
put_chain-Puts p (d ∷ chain) len buf e s =
    let full : (len == 0) ≡ false = ground (arith, length-append d.bytes (chain_bytes chain)) in
    rw full (put_tail-Puts (suc (length chain) + length buf) p d chain buf (omega arith) s)

-- The stream after a put is the stream before it with the bytes behind; the chain stays well
-- formed, and DBufUsedCount moves with its buffers.
pub stream-dbuf_put :
    (p : Pool) (dyn : Dbuf) (buf : Text)
    → IsValid dyn
    → (stream (dbuf_put p dyn buf).1 ≡ stream dyn ++ buf)
      × IsValid (dbuf_put p dyn buf).1
      × IsAccounted p dyn.head (dbuf_put p dyn buf).0 (dbuf_put p dyn buf).1.head
unfolding dbuf_put
stream-dbuf_put p dyn buf v =
    let (bytes, solid, counted) = put_chain-Puts p dyn.head dyn.length buf v.sized v.solid in
    (
      bytes,
      record {
        sized = omega (arith, v.sized, ap length bytes, length-append (stream dyn) buf);
        solid = solid;
      },
      counted,
    )
