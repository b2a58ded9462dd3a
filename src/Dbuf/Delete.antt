-- ===== src/Dbuf/Delete.antt =====
-- `dbuf_delete`, `dbuf_map` and `dbuf_get` of src/dbuf.c take from the front of the stream.
use igniteircd.Prelude.{
  ℕ, zero, suc, ◌-◌, ◌≤◌, ◌<◌, ◌≡◌, refl, sym, ap, ◌∙◌, ◌⊎◌, inl, inr, false, none, some, List, [],
  ◌∷◌, ◌++◌, Text, All, length, take, drop, arith, ltb, ◌==◌, ==-refl, Bool-cases, length-append,
  length-drop, drop-append_long, drop-append_short, take-append_short, drop_all, take_all, subst,
  take-take-drop, drop-drop,
}
use mathlib.Core.Path.{ap₂}
use igniteircd.Dbuf.{
  min, Dbuf, DbufBuffer, Pool, dbuf_free, delete_loop, settle, dbuf_delete, dbuf_map, get_round,
  get_loop, dbuf_get,
}
use igniteircd.Dbuf.Bytes.{chain_bytes, stream, IsSolid, IsValid, IsAccounted}

pub used-dbuf_free : (p : Pool) → (dbuf_free p).used ≡ p.used - 1
unfolding dbuf_free
used-dbuf_free p = ground arith

-- What a deletion has to give.
abbrev Deletes : Pool → List DbufBuffer → ℕ → ℕ → Pool × List DbufBuffer × ℕ → Type 0
Deletes p chain n len (q, chain', len') =
    (chain_bytes chain' ≡ drop n (chain_bytes chain))
    × All IsSolid chain'
    × (len' ≡ len - n)
    × IsAccounted p chain q chain'

delete_loop-Deletes :
    (p : Pool) (chain : List DbufBuffer) (n len : ℕ)
    → n ≤ length (chain_bytes chain)
    → All IsSolid chain
    → length chain ≤ p.used
    → Deletes p chain n len (delete_loop p chain n len)
unfolding delete_loop
delete_loop-Deletes p [] n len h s u = (sym (drop_all n [] (omega arith)), tt, omega arith, refl)
delete_loop-Deletes p (d ∷ chain) n len h s u = elim (Bool-cases (n == 0)) [
  | inl z ↦ let none_left : n ≡ 0 = ground arith in rw none_left (refl, s, omega arith, refl)
  | inr z ↦ elim (Bool-cases (ltb n (length d.bytes))) [
    | inl l ↦
        let stays : (n == length d.bytes) ≡ false = ground arith in
        rw (z, l, stays)
          (
            sym (drop-append_short n d.bytes (chain_bytes chain) (ground arith)),
            (
              (ground (arith, length-drop n d.bytes), ground (arith, length-drop n d.bytes, s.0.1)),
              s.1,
            ),
            refl,
            refl,
          )
    | inr l ↦
        let bytes = length d.bytes in
        let (rest, solid, size, counted) =
          delete_loop-Deletes (dbuf_free p) chain (n - bytes) (len - bytes)
            (omega (arith, h, length-append d.bytes (chain_bytes chain))) s.1
            (omega (arith, u, used-dbuf_free p)) in
        rw (z, l, ==-refl bytes)
          (
            rest ∙ sym (drop-append_long n d.bytes (chain_bytes chain) (ground arith)),
            solid,
            ground (arith, size),
            omega (arith, counted, used-dbuf_free p, u),
          )
  ]
]

drop-min : (n : ℕ) (bytes : Text) → drop (min (length bytes) n) bytes ≡ drop n bytes
drop-min n bytes = elim (Bool-cases (ltb n (length bytes))) [
  | inl l ↦ rw l
  | inr l ↦
      rw l (drop_all (length bytes) bytes (omega arith) ∙ sym (drop_all n bytes (ground arith)))
]

settle_lem : (chain : List DbufBuffer) (len : ℕ) → (settle chain len).head ≡ chain
unfolding settle
settle_lem [] len = refl
settle_lem (d ∷ chain) len = refl

settle-IsValid :
    (chain : List DbufBuffer) (len : ℕ)
    → len ≡ length (chain_bytes chain)
    → All IsSolid chain
    → IsValid (settle chain len)
unfolding settle
settle-IsValid [] len e s = record { sized = refl; solid = s }
settle-IsValid (d ∷ chain) len e s = record { sized = e; solid = s }

-- The buffers of the chain are among those in use.
abbrev pub IsBacked : Pool → Dbuf → Type 0
IsBacked p dyn = length dyn.head ≤ p.used

-- A deletion drops that many bytes from the front of the stream, all of them if there are
-- fewer; the chain stays well formed, and DBufUsedCount moves with its buffers. The buffers of
-- the chain are counted as used before.
pub stream-dbuf_delete :
    (p : Pool) (dyn : Dbuf) (n : ℕ)
    → IsValid dyn
    → IsBacked p dyn
    → (stream (dbuf_delete p dyn n).1 ≡ drop n (stream dyn))
      × IsValid (dbuf_delete p dyn n).1
      × IsAccounted p dyn.head (dbuf_delete p dyn n).0 (dbuf_delete p dyn n).1.head
unfolding dbuf_delete
stream-dbuf_delete p dyn n v u =
    let k = min dyn.length n in
    let inside : k ≤ length (stream dyn) = ground (arith, v.sized) in
    let (rest, solid, size, counted) =
      delete_loop-Deletes p dyn.head k dyn.length inside v.solid u in
    let out = delete_loop p dyn.head k dyn.length in
    let cut : drop k (stream dyn) ≡ drop n (stream dyn) =
      ap (λ l. drop (min l n) (stream dyn)) v.sized ∙ drop-min n (stream dyn) in
    (
      ap chain_bytes (settle_lem out.1 out.2) ∙ rest ∙ cut,
      settle-IsValid out.1 out.2
          (omega (arith, size, v.sized, ap length rest, length-drop k (stream dyn))) solid,
      rw (settle_lem out.1 out.2) counted,
    )

dbuf_map-cases :
    (dyn : Dbuf) (chain : List DbufBuffer)
    → dyn.head ≡ chain
    → IsValid dyn
    → ((dbuf_map dyn ≡ none) × (stream dyn ≡ []))
      ⊎ ((b : Text) × (rest : Text) × (dbuf_map dyn ≡ some b)
          × (stream dyn ≡ b ++ rest)
          × (0 < length b))
unfolding dbuf_map
dbuf_map-cases dyn [] e v = inl (ground arith, ap chain_bytes e)
dbuf_map-cases dyn (d ∷ chain) e v =
    let solid : All IsSolid (d ∷ chain) = subst (All IsSolid) e v.solid in
    inr (
      d.bytes,
      chain_bytes chain,
      ground (
        arith,
        v.sized,
        ap (λ c. length (chain_bytes c)) e,
        length-append d.bytes (chain_bytes chain),
        solid.0.0,
      ),
      ap chain_bytes e,
      solid.0.0,
    )

-- What a copy has to give.
abbrev Gets : Pool → Dbuf → ℕ → Pool × Dbuf × Text → Type 0
Gets p dyn n (q, dyn', copied) =
    (copied ≡ take n (stream dyn))
    × (stream dyn' ≡ drop n (stream dyn))
    × IsValid dyn'
    × IsAccounted p dyn.head q dyn'.head

get_round-Gets :
    (next : Pool → Dbuf → ℕ → Pool × Dbuf × Text) (p : Pool) (dyn : Dbuf) (n : ℕ) (b rest : Text)
    → stream dyn ≡ b ++ rest
    → 0 < length b
    → IsValid dyn
    → IsBacked p dyn
    → ((q : Pool) (dyn' : Dbuf) (m : ℕ)
        → m < n
        → IsValid dyn'
        → IsBacked q dyn'
        → Gets q dyn' m (next q dyn' m))
    → Gets p dyn n (get_round next p dyn n b)
unfolding get_round
get_round-Gets next p dyn n b rest e some_bytes v u ih = elim (Bool-cases (n == 0)) [
  | inl z ↦ let none_left : n ≡ 0 = ground arith in rw none_left (refl, refl, v, refl)
  | inr z ↦
      let chunk = min (length b) n in
      let del = dbuf_delete p dyn chunk in
      let (left, v', counted) = stream-dbuf_delete p dyn chunk v u in
      let (copied, left', v'', counted') =
        ih del.0 del.1 (n - chunk) (ground arith) v' (omega (arith, counted, u)) in
      let inside : chunk ≤ length b = ground arith in
      let below : chunk ≤ n = ground arith in
      let front : take chunk b ≡ take chunk (stream dyn) =
        sym (ap (take chunk) e ∙ take-append_short chunk b rest inside) in
      rw z (
        ap₂ ◌++◌ front (copied ∙ ap (take (n - chunk)) left)
            ∙ take-take-drop chunk n (stream dyn) below,
        left' ∙ ap (drop (n - chunk)) left ∙ drop-drop chunk n (stream dyn) below,
        v'',
        omega (arith, counted, counted'),
      )
]

get_loop-Gets :
    (fuel : ℕ) (p : Pool) (dyn : Dbuf) (n : ℕ)
    → n < fuel
    → IsValid dyn
    → IsBacked p dyn
    → Gets p dyn n (get_loop fuel p dyn n)
unfolding get_loop
get_loop-Gets zero p dyn n h v u = absurd (omega arith)
get_loop-Gets (suc fuel) p dyn n h v u = elim (dbuf_map-cases dyn dyn.head refl v) [
  | inl (m, e) ↦
      rw (m, get_loop)
        (
          sym (ap (take n) e ∙ take_all n [] (omega arith)),
          e ∙ sym (ap (drop n) e ∙ drop_all n [] (omega arith)),
          v,
          refl,
        )
  | inr (b, rest, m, e, some_bytes) ↦
      rw (m, get_loop)
        (get_round-Gets (get_loop fuel) p dyn n b rest e some_bytes v u
          (λ q dyn' k less v' u'. get_loop-Gets fuel q dyn' k (omega arith) v' u'))
]

-- A get copies the first bytes of the stream, as many as are asked for or all there are, and
-- leaves the others; the chain stays well formed, and DBufUsedCount moves with its buffers.
-- The buffers of the chain are counted as used before.
pub dbuf_get_lem :
    (p : Pool) (dyn : Dbuf) (n : ℕ)
    → IsValid dyn
    → IsBacked p dyn
    → ((dbuf_get p dyn n).2 ≡ take n (stream dyn))
      × (stream (dbuf_get p dyn n).1 ≡ drop n (stream dyn))
      × IsValid (dbuf_get p dyn n).1
      × IsAccounted p dyn.head (dbuf_get p dyn n).0 (dbuf_get p dyn n).1.head
unfolding dbuf_get
dbuf_get_lem p dyn n v u = get_loop-Gets (suc n) p dyn n (omega arith) v u
