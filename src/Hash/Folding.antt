-- ===== src/Hash/Folding.antt =====
-- The hashes of src/hash.c do not see the case of a name.
use igniteircd.Prelude.{ℕ, zero, suc, ◌%◌, ◌<◌, ◌≡◌, refl, ap, true, [], ◌∷◌, Text, All, arith}
use igniteircd.Chars.Tables.{to_lower, to_upper, IsChar}
use igniteircd.Chars.Folding.{to_lower-eq_iff_to_upper}
use igniteircd.Mask.Compare.{same_name}
use igniteircd.Mask.Compare.Laws.{SameFolding, same_name_iff, folded_heads, folded_tails}
use igniteircd.Hash.{
  hash_step, hash_chars, hash_bounded, hash_nick_name, hash_channel_name, u_max, ch_max,
}

hash_step-fold :
    (h c d : ℕ) → IsChar c → IsChar d → to_upper c ≡ to_upper d → hash_step h c ≡ hash_step h d
unfolding hash_step
hash_step-fold h c d hc hd e =
    let low : to_lower c ≡ to_lower d = (to_lower-eq_iff_to_upper c d hc.1 hd.1).1 e in rw low

hash_chars-fold :
    (h : ℕ) (s t : Text)
    → All IsChar s
    → All IsChar t
    → SameFolding s t
    → hash_chars h s ≡ hash_chars h t
unfolding hash_chars
hash_chars-fold h [] [] hs ht e = refl
hash_chars-fold h [] (d ∷ t) hs ht e = cc
hash_chars-fold h (c ∷ s) [] hs ht e = cc
hash_chars-fold h (c ∷ s) (d ∷ t) hs ht e =
    rw (hash_step-fold h c d hs.0 ht.0 (folded_heads e))
      (hash_chars-fold (hash_step h d) s t hs.1 ht.1 (folded_tails e))

hash_bounded-fold :
    (i h : ℕ) (s t : Text)
    → All IsChar s
    → All IsChar t
    → SameFolding s t
    → hash_bounded i h s ≡ hash_bounded i h t
unfolding hash_bounded
hash_bounded-fold i h [] [] hs ht e = refl
hash_bounded-fold i h [] (d ∷ t) hs ht e = cc
hash_bounded-fold i h (c ∷ s) [] hs ht e = cc
hash_bounded-fold zero h (c ∷ s) (d ∷ t) hs ht e = refl
hash_bounded-fold (suc i) h (c ∷ s) (d ∷ t) hs ht e =
    rw (hash_step-fold h c d hs.0 ht.0 (folded_heads e))
      (hash_bounded-fold i (hash_step h d) s t hs.1 ht.1 (folded_tails e))

-- Two names that `irccmp` takes for one lie in one chain of the client table and in one of the
-- channel table, each of them a chain that the table has. The names hold bytes and no NUL.
pub hash-same_name :
    (s t : Text)
    → All IsChar s
    → All IsChar t
    → same_name s t ≡ true
    → (hash_nick_name s ≡ hash_nick_name t)
      × (hash_channel_name s ≡ hash_channel_name t)
      × (hash_nick_name t < u_max)
      × (hash_channel_name t < ch_max)
unfolding hash_nick_name hash_channel_name
hash-same_name s t hs ht e =
    let f = (same_name_iff s t hs ht).0 e in
    (
      ap (λ h. h % u_max) (hash_chars-fold 0 s t hs ht f),
      ap (λ h. h % ch_max) (hash_bounded-fold 29 0 s t hs ht f),
      omega arith,
      omega arith,
    )
