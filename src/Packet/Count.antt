-- ===== src/Packet/Count.antt =====
-- The counters of bytes in src/packet.c.
use igniteircd.Prelude.{ℕ, ◌+◌, ◌*◌, ◌^◌, ◌<◌, ◌≤◌, ◌≡◌, arith}
use igniteircd.Packet.{Bytes, count_bytes}

-- All bytes counted.
abbrev pub total : Bytes → ℕ
total b = b.receive_k * 1024 + b.receive_b

abbrev pub readbuf_size : ℕ
readbuf_size = 16384

-- While the count of kilobytes stays below 2^32, counting the bytes of a read of at most
-- READBUF_SIZE bytes adds just these to what was counted, and leaves less than a kilobyte in
-- the 16 bits of the counter of bytes.
pub count_bytes-total :
    (n : ℕ) (b : Bytes)
    → n ≤ readbuf_size
    → b.receive_b < 1024
    → b.receive_k + 17 < 2 ^ 32
    → (total (count_bytes n b) ≡ total b + n) × ((count_bytes n b).receive_b < 1024)
unfolding count_bytes
count_bytes-total n b small less room = ground arith
