-- ===== src/Hash/Masked.antt =====
-- `hash_find_server` of src/hash.c, and its search for masks such as *.bar.edu.
use igniteircd.Prelude.{
  ℕ, ◌≡◌, ap, ◌⊎◌, inl, inr, Bool, true, ◌&&◌, none, some, List, [], ◌∷◌, ◌++◌, Text, take, arith,
  ◌==◌, ==_iff, Bool-cases, Option-cases,
}
use igniteircd.Mask.Compare.{same_name}
use igniteircd.Hash.{
  Objects, Table, find_link, every, or_default, hash_find_client, hash_nick_name, masked_lookups,
  hash_find_masked_server, hash_find_server, hostlen,
}

-- The name ends in a dot and `rest`, and the object is named *. and `rest` up to case.
abbrev pub IsMasked : Objects → Text → ℕ → Type 0
IsMasked o name p =
    (before : Text) × (rest : Text) × (name ≡ before ++ (b'.' ∷ rest))
    × (same_name (b'*' ∷ b'.' ∷ rest) (o.name_of p) ≡ true)

module _ (o : Objects) (t : Table) where
  find_link-named :
      (test : ℕ → Bool) (name : Text) (chain : List ℕ) (p : ℕ)
      → find_link o test name chain ≡ some p
      → (test p ≡ true) × (same_name name (o.name_of p) ≡ true)
  unfolding find_link
  find_link-named test name [] p e = cc
  find_link-named test name (q ∷ chain) p e =
      elim (Bool-cases (test q && same_name name (o.name_of q))) [
        | inl h ↦ ground arith
        | inr h ↦ find_link-named test name chain p (ground arith)
      ]

  hash_find_client-named :
      (name : Text) (p : ℕ)
      → hash_find_client o t name none ≡ some p
      → same_name name (o.name_of p) ≡ true
  unfolding hash_find_client or_default
  hash_find_client-named name p e =
      (find_link-named every name (t (hash_nick_name name)).list p (ground arith)).1

  masked_lookups-IsMasked :
      (name : Text) (p : ℕ) → masked_lookups o t name ≡ some p → IsMasked o name p
  unfolding masked_lookups or_default
  masked_lookups-IsMasked [] p e = cc
  masked_lookups-IsMasked (c ∷ name) p e =
      let further : masked_lookups o t name ≡ some p → IsMasked o (c ∷ name) p = λ h.
        let (before, rest, e, s) = masked_lookups-IsMasked name p h in
        (c ∷ before, rest, ap (λ n. c ∷ n) e, s) in
      elim (Bool-cases (c == b'.')) [
        | inl k ↦ elim (Option-cases (hash_find_client o t (b'*' ∷ c ∷ name) none)) [
          | inl m ↦ further (ground arith)
          | inr (q, m) ↦
              let dot : c ≡ b'.' = (==_iff c _).0 k in
              let hit : hash_find_client o t (b'*' ∷ b'.' ∷ name) none ≡ some p = ground arith in
              ([], name, ap (λ d. d ∷ name) dot, hash_find_client-named _ p hit)
        ]
        | inr k ↦ further (ground arith)
      ]

-- What a search for a server finds is a server, or this one, of that name up to case, or
-- an object named by a star and an end of the name that begins with a dot; of the name the
-- first HOSTLEN characters are read for this.
pub hash_find_server-named :
    (o : Objects) (t : Table) (name : Text) (p : ℕ)
    → hash_find_server o t name ≡ some p
    → ((o.is_server_or_me p ≡ true) × (same_name name (o.name_of p) ≡ true))
      ⊎ IsMasked o (take hostlen name) p
unfolding hash_find_server hash_find_masked_server or_default
hash_find_server-named o t name p e =
    elim (Option-cases (find_link o o.is_server_or_me name (t (hash_nick_name name)).list)) [
      | inl m ↦ inr (masked_lookups-IsMasked o t (take hostlen name) p (ground arith))
      | inr (q, m) ↦ inl (
          find_link-named o t o.is_server_or_me name (t (hash_nick_name name)).list p
            (ground arith))
    ]
