-- ===== src/Dbuf/Tests.antt =====
-- The streams of src/dbuf.c on a chain of two buffers.
use igniteircd.Prelude.{◌≡◌, refl, some, [], ◌∷◌, ◌++◌, codes, arith}
use igniteircd.Chars.Tables.{is_eol}
use igniteircd.Dbuf.{
  Dbuf, Pool, dbuf_put, dbuf_delete, dbuf_free, dbuf_getmsg, dbuf_flush, flush_loop, strip_eols,
  line_loop, line_part, take_line, delete_loop, settle,
}
use igniteircd.Dbuf.Bytes.{stream, IsValid, IsAccounted}
use igniteircd.Dbuf.Put.{stream-dbuf_put}

abbrev pool : Pool
pool = record { free = 1; count = 3; used = 2 }

-- The line `PING x` and the start of another, over two buffers.
abbrev dyn : Dbuf
dyn = record {
  head =
      record { start = 1000; bytes = codes "PIN" }
      ∷ record { start = 0; bytes = codes "G x" ++ 13 ∷ 10 ∷ codes "US" }
      ∷ [];
  length = 10;
}

dyn-IsValid : IsValid dyn
dyn-IsValid = record {
  sized = refl;
  solid = ((omega arith, omega arith), ((omega arith, omega arith), tt));
}

stream-dbuf_put_example :
    (stream (dbuf_put pool dyn (codes "ER")).1 ≡ stream dyn ++ codes "ER")
    × IsValid (dbuf_put pool dyn (codes "ER")).1
    × IsAccounted pool dyn.head
        (dbuf_put pool dyn (codes "ER")).0
        (dbuf_put pool dyn (codes "ER")).1.head
stream-dbuf_put_example = stream-dbuf_put pool dyn (codes "ER") dyn-IsValid

whole_line : (dbuf_getmsg pool dyn 512).2 ≡ some (codes "PING x")
unfolding dbuf_getmsg dbuf_flush flush_loop strip_eols line_loop line_part take_line dbuf_delete
    delete_loop dbuf_free settle is_eol
whole_line = refl
