-- ===== src/Dbuf/Bytes.antt =====
-- The byte stream that a chain of src/dbuf.c holds, and what keeps a chain well formed.
use igniteircd.Prelude.{◌+◌, ◌≤◌, ◌<◌, ◌≡◌, List, [], ◌∷◌, ◌++◌, Text, All, length}
use igniteircd.Dbuf.{Dbuf, DbufBuffer, Pool, dbuf_size}

abbrev pub chain_bytes : List DbufBuffer → Text
chain_bytes [] = []
chain_bytes (d ∷ chain) = d.bytes ++ chain_bytes chain

abbrev pub stream : Dbuf → Text
stream dyn = chain_bytes dyn.head

-- A buffer holds bytes, within its data.
abbrev pub IsSolid : DbufBuffer → Type 0
IsSolid d = (0 < length d.bytes) × (d.start + length d.bytes ≤ dbuf_size)

pub record IsValid (dyn : Dbuf) : Type 0 where
  pub sized : dyn.length ≡ length (stream dyn)
  pub solid : All IsSolid dyn.head

-- DBufUsedCount moved with the buffers of the chain: none was lost and none was freed twice.
abbrev pub IsAccounted : Pool → List DbufBuffer → Pool → List DbufBuffer → Type 0
IsAccounted p chain q chain' = q.used + length chain ≡ p.used + length chain'
