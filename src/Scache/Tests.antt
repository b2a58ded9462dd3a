-- ===== src/Scache/Tests.antt =====
-- src/scache.c on an empty cache.
use igniteircd.Prelude.{◌≡◌, refl, true, [], codes, arith}
use igniteircd.Chars.Tables.{to_upper}
use igniteircd.Mask.Compare.{same_name}
use igniteircd.Scache.{Cache, find_or_add}
use igniteircd.Scache.Laws.{find_or_add_again}

abbrev empty : Cache
empty = record { scache_hash = λ i. []; name = λ ptr. [] }

find_or_add_again_example :
    (same_name
        ((find_or_add empty (codes "A.b") 5).0.name (find_or_add empty (codes "A.b") 5).1)
        (codes "A.b")
      ≡ true)
    × (find_or_add (find_or_add empty (codes "A.b") 5).0 (codes "a.B") 9
        ≡ find_or_add empty (codes "A.b") 5)
unfolding same_name to_upper
find_or_add_again_example =
    find_or_add_again empty (codes "A.b") (codes "a.B") 5 9 (λ ptr. ground arith) (ground arith)
      (ground arith) (omega arith) refl
