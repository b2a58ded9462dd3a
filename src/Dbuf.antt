-- ===== src/Dbuf.antt =====
-- src/dbuf.c: a byte stream in a chain of fixed buffers. A buffer is the offset of `start` in
-- its data and the bytes from `start` to `end`; the bytes outside are never read. `head` is
-- the chain by `next`, and `tail` is its last buffer: `dbuf_put` sets it to each buffer that it
-- links, and the other operations take buffers from the front and clear it with the chain.
-- MyMalloc does not return without memory, so `dbuf_alloc` always has a buffer.
pub mod Bytes
pub mod Put
pub mod Delete
pub mod Flush
pub mod Line
mod Tests
use igniteircd.Prelude.{
  ℕ, zero, suc, ◌+◌, ◌-◌, ◌/◌, Bool, true, false, not, Option, none, some, List, [], ◌∷◌, ◌++◌,
  Text, length, take, drop, ◌==◌, ltb, if◌then◌else◌,
}
use igniteircd.Chars.Tables.{is_eol}

abbrev pub dbuf_size : ℕ
dbuf_size = 1024

-- BUFFERPOOL / DBUF_SIZE, BUFFERPOOL being four times MAXSENDQLENGTH.
abbrev pub dbuf_usual_max_count : ℕ
dbuf_usual_max_count = 1953

abbrev pub initial_dbufs : ℕ
initial_dbufs = 300

pub record DbufBuffer : Type 0 where
  pub start : ℕ
  pub bytes : Text

-- `free` is the length of dbufFreeList; the rest are DBufCount and DBufUsedCount.
pub record Pool : Type 0 where
  pub free : ℕ
  pub count : ℕ
  pub used : ℕ

pub record Dbuf : Type 0 where
  pub head : List DbufBuffer
  pub length : ℕ

-- The list begins with one buffer, and the loop links INITIAL_DBUFS more.
pub dbuf_init : Pool
dbuf_init = record { free = 1 + initial_dbufs; count = initial_dbufs; used = 0 }

pub dbuf_alloc : Pool → Pool × DbufBuffer
dbuf_alloc p = (
  if ltb 0 p.free
      then record { free = p.free - 1; count = p.count; used = p.used + 1 }
      else record { free = p.free; count = p.count + 1; used = p.used + 1 },
  record { start = 0; bytes = [] },
)

pub dbuf_free : Pool → Pool
dbuf_free p =
    if ltb dbuf_usual_max_count p.used
    then record p { used = p.used - 1 }
    else record p { free = p.free + 1; used = p.used - 1 }

abbrev pub min : ℕ → ℕ → ℕ
min a b = if ltb b a then b else a

-- `(d->data + DBUF_SIZE) - d->end`, cut to the bytes that are left, and the copy of so many.
pub room : DbufBuffer → ℕ
room d = dbuf_size - (d.start + length d.bytes)

pub fill : DbufBuffer → Text → DbufBuffer × Text
fill d buf =
    let chunk = min (room d) (length buf) in
    (record d { bytes = d.bytes ++ take chunk buf }, drop chunk buf)

-- The loop of dbuf_put over the chain from `h` on.
pub put_loop : ℕ → Pool → List DbufBuffer → Text → Pool × List DbufBuffer
put_loop fuel p chain [] = (p, chain)
put_loop zero p chain (b ∷ buf) = (p, chain)
put_loop (suc fuel) p [] (b ∷ buf) =
    let (p', d) = dbuf_alloc p in
    let (d', left) = fill d (b ∷ buf) in
    let (q, chain) = put_loop fuel p' [] left in (q, d' ∷ chain)
put_loop (suc fuel) p (d ∷ chain) (b ∷ buf) =
    let (d', left) = fill d (b ∷ buf) in
    let (q, chain') = put_loop fuel p chain left in (q, d' ∷ chain')

-- From `h = &(dyn->tail)`.
pub put_tail : ℕ → Pool → List DbufBuffer → Text → Pool × List DbufBuffer
put_tail fuel p [] buf = put_loop fuel p [] buf
put_tail fuel p (d ∷ []) buf = put_loop fuel p (d ∷ []) buf
put_tail fuel p (d ∷ e ∷ chain) buf =
    let (q, chain') = put_tail fuel p (e ∷ chain) buf in (q, d ∷ chain')

-- A round passes a buffer or copies a byte.
pub dbuf_put : Pool → Dbuf → Text → Pool × Dbuf
dbuf_put p dyn buf =
    let fuel = length dyn.head + length buf in
    let (q, chain) =
      if dyn.length == 0 then put_loop fuel p dyn.head buf else put_tail fuel p dyn.head buf in
    (q, record { head = chain; length = dyn.length + length buf })

-- The bytes at the front that lie together; `none` with length 0 for an empty stream.
pub dbuf_map : Dbuf → Option Text
dbuf_map dyn = if dyn.length == 0 then none else elim dyn.head [ [] ↦ none | d ∷ _ ↦ some d.bytes ]

-- The loop of dbuf_delete, with dyn->length. When a buffer keeps bytes, nothing is left to
-- delete.
pub delete_loop : Pool → List DbufBuffer → ℕ → ℕ → Pool × List DbufBuffer × ℕ
delete_loop p [] n len = (p, [], len)
delete_loop p (d ∷ chain) n len =
    let chunk = min (length d.bytes) n in
    let rest = delete_loop (dbuf_free p) chain (n - chunk) (len - chunk) in
    if n == 0
    then (p, d ∷ chain, len)
    else if chunk == length d.bytes
    then rest
    else (p, record { start = d.start + chunk; bytes = drop chunk d.bytes } ∷ chain, len - chunk)

-- `if (0 == dyn->head) { dyn->tail = 0; dyn->length = 0; }`
pub settle : List DbufBuffer → ℕ → Dbuf
settle [] len = record { head = []; length = 0 }
settle (d ∷ chain) len = record { head = d ∷ chain; length = len }

pub dbuf_delete : Pool → Dbuf → ℕ → Pool × Dbuf
dbuf_delete p dyn n =
    let (q, chain, len) = delete_loop p dyn.head (min dyn.length n) dyn.length in
    (q, settle chain len)

-- One round of dbuf_get with the bytes that dbuf_map showed. It copies a byte or ends the copy.
pub get_round : (Pool → Dbuf → ℕ → Pool × Dbuf × Text) → Pool → Dbuf → ℕ → Text → Pool × Dbuf × Text
get_round next p dyn n b =
    let chunk = min (length b) n in
    let (q, dyn') = dbuf_delete p dyn chunk in
    let rest = next q dyn' (n - chunk) in
    if n == 0 then (p, dyn, []) else (rest.0, rest.1, take chunk b ++ rest.2)

pub get_loop : ℕ → Pool → Dbuf → ℕ → Pool × Dbuf × Text
get_loop zero p dyn n = (p, dyn, [])
get_loop (suc fuel) p dyn n = elim (dbuf_map dyn) [
  | none ↦ (p, dyn, [])
  | some b ↦ get_round (get_loop fuel) p dyn n b
]

-- The bytes that the caller's buffer receives; their number is returned.
pub dbuf_get : Pool → Dbuf → ℕ → Pool × Dbuf × Text
dbuf_get p dyn n = get_loop (suc n) p dyn n

-- The ends of lines at the front of a buffer: how many, and what is behind them.
pub strip_eols : Text → ℕ × Text
strip_eols [] = (0, [])
strip_eols (c ∷ bytes) =
    let (k, rest) = strip_eols bytes in if is_eol c then (suc k, rest) else (0, c ∷ bytes)

pub flush_loop : Pool → List DbufBuffer → ℕ → Pool × Dbuf
flush_loop p [] len = (p, record { head = []; length = 0 })
flush_loop p (d ∷ chain) len =
    let (k, rest) = strip_eols d.bytes in
    let on = flush_loop (dbuf_free p) chain (len - k) in
    elim rest [
      | [] ↦ on
      | c ∷ bytes ↦ (
        p,
        record {
          head = record { start = d.start + k; bytes = c ∷ bytes } ∷ chain;
          length = len - k;
        },
      )
    ]

-- An empty chain is left as it is.
pub dbuf_flush : Pool → Dbuf → Pool × Dbuf
dbuf_flush p dyn = elim dyn.head [ [] ↦ (p, dyn) | d ∷ chain ↦ flush_loop p (d ∷ chain) dyn.length ]

-- `while (start < end && !IsEol(*start)) *buf++ = *start++;`
pub line_part : Text → Text
line_part [] = []
line_part (c ∷ bytes) = let rest = line_part bytes in if is_eol c then [] else c ∷ rest

-- The loop of dbuf_getmsg over the chain: the line, if it ends before the limit.
pub line_loop : List DbufBuffer → ℕ → Option Text
line_loop [] n = none
line_loop (d ∷ chain) n =
    let window = take n d.bytes in
    let part = line_part window in
    let rest = line_loop chain (n - length part) in
    if n == 0
    then none
    else if ltb (length part) (length window)
    then some part
    else elim rest [ none ↦ none | some line ↦ some (part ++ line) ]

-- Behind the loop of dbuf_getmsg: the line is cut off, if there is one.
pub take_line : Pool → Dbuf → Option Text → Pool × Dbuf × Option Text
take_line p dyn none = (p, dyn, none)
take_line p dyn (some line) =
    let (q, dyn') = dbuf_delete p dyn (length line) in
    let (r, dyn'') = dbuf_flush q dyn' in (r, dyn'', some line)

-- The line that the caller's buffer receives, `none` where 0 is returned.
pub dbuf_getmsg : Pool → Dbuf → ℕ → Pool × Dbuf × Option Text
dbuf_getmsg p dyn n =
    let (q, dyn') = dbuf_flush p dyn in
    if dyn'.length == 0
    then (q, dyn', none)
    else take_line q dyn' (line_loop dyn'.head (min dyn'.length n))
