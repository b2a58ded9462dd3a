-- ===== src/Whowas/History.antt =====
-- Lookups in src/whowas.c, and a client that goes away.
use igniteircd.Prelude.{
  ℕ, inl, inr, ◌+◌, ◌-◌, ◌<◌, ◌≤◌, ◌≡◌, ◌≢◌, refl, sym, ap, subst, ◌∙◌, true, false, not, ◌||◌,
  Option, none, some, List, [], ◌∷◌, Text, length, ltb, ◌==◌, Bool-cases, All, arith, ==-refl,
  take_all,
}
use igniteircd.Chars.Tables.{IsChar}
use igniteircd.Mask.Compare.{same_name}
use igniteircd.Hash.{hash_nick_name}
use igniteircd.Hash.Folding.{hash-same_name}
use igniteircd.Channel.{set}
use igniteircd.Channel.Set.{set_at}
use igniteircd.Whowas.{
  Client, Entry, State, nicklen, put_on, unlink, new_entry, fill, add_history, add_whowas,
  hash_whowas_name, del_whowas, take_off, forget, off_each, off_history, find_history, get_history,
}
use igniteircd.Whowas.Index.{points, occ, take_off-IsIndex}
use igniteircd.Whowas.Ring.{IsValid, hash_key, client_key, IsIndex-cong, key_replaced, entry_at}

points-some : (o : Option ℕ) (k : ℕ) → 0 < points o k → o ≡ some k
points-some none k h = absurd (omega (arith, h))
points-some (some j) k h = elim (Bool-cases (j == k)) [
  | inl t ↦ let e : j ≡ k = ground (arith, t) in ap some e
  | inr f ↦ absurd (ground (arith, h, f))
]

occ-head : (i : ℕ) (l : List ℕ) → 0 < occ i (i ∷ l)
occ-head i l = rw (==-refl i) (omega arith)

off_key :
    (entries : ℕ → Entry) (temp : ℕ) (i : ℕ)
    → (entries i).hashv ≡ (set entries temp (record (entries temp) { online = none }) i).hashv
off_key entries temp i = elim (Bool-cases (i == temp)) [
  | inl t ↦ let e : i ≡ temp = ground (arith, t) in rw t (ap (λ x. (entries x).hashv) e)
  | inr f ↦ rw f refl
]

still_none :
    (entries : ℕ → Entry) (temp : ℕ)
    → ((i : ℕ) → (entries i).hashv ≡ none → (entries i).online ≡ none)
    → (i : ℕ) → (set entries temp (record (entries temp) { online = none }) i).hashv ≡ none
    → (set entries temp (record (entries temp) { online = none }) i).online ≡ none
still_none entries temp h i e =
    let x : Entry = record (entries temp) { online = none } in
    elim (entry_at entries temp x i) [
      | inl t ↦ ap (λ y. y.online) t
      | inr f ↦ ap (λ y. y.online) f ∙ h i (sym (ap (λ y. y.hashv) f) ∙ e)
    ]

forget-IsValid :
    (s : State) (c : ℕ) (temp : ℕ)
    → IsValid s
    → client_key s temp ≡ some c
    → IsValid (forget c temp s)
unfolding forget take_off
forget-IsValid s c temp h e =
    let x : Entry = record (s.entries temp) { online = none } in
    record {
      by_hash =
          IsIndex-cong s.hash (hash_key s) (λ i. (set s.entries temp x i).hashv)
            (off_key s.entries temp) h.by_hash;
      by_client =
          IsIndex-cong (set s.of_client c (del_whowas temp (s.of_client c)))
            (set (client_key s) temp none) (λ i. (set s.entries temp x i).online)
            (key_replaced (λ y. y.online) s.entries temp x)
            (take_off-IsIndex s.of_client (client_key s) temp h.by_client (some c) e);
      unused = still_none s.entries temp h.unused;
      inside = h.inside;
    }

forget_rest :
    (s : State) (c : ℕ) (temp : ℕ) (next : List ℕ)
    → s.of_client c ≡ temp ∷ next
    → (forget c temp s).of_client c ≡ next
unfolding forget del_whowas
forget_rest s c temp next e =
    set_at s.of_client c (del_whowas temp (s.of_client c))
    ∙ ap (del_whowas temp) e
    ∙ rw (==-refl temp) refl

off_each-IsValid :
    (c : ℕ) (temps : List ℕ) (s : State)
    → IsValid s
    → s.of_client c ≡ temps
    → IsValid (off_each c temps s) × ((off_each c temps s).of_client c ≡ [])
unfolding off_each
off_each-IsValid c [] s h e = (h, e)
off_each-IsValid c (temp ∷ next) s h e =
    let here = subst (λ l. 0 < occ temp l) (sym e) (occ-head temp next) in
    let own = points-some (client_key s temp) c (subst (λ n. 0 < n) (h.by_client temp c) here) in
    off_each-IsValid c next (forget c temp s) (forget-IsValid s c temp h own)
      (forget_rest s c temp next e)

-- What a walk along a chain finds.
find_history-some :
    (entries : ℕ → Entry) (nick : Text) (limit : ℕ) (chain : List ℕ) (c : ℕ)
    → find_history entries nick limit chain ≡ some c
    → (i : ℕ) × (0 < occ i chain)
      × (same_name nick (entries i).name ≡ true)
      × (limit ≤ (entries i).logoff)
      × ((entries i).online ≡ some c)
unfolding find_history
find_history-some entries nick limit [] c e = cc
find_history-some entries nick limit (temp ∷ next) c e =
    elim (Bool-cases
      (not (same_name nick (entries temp).name) || ltb (entries temp).logoff limit)) [
        | inl t ↦
            let step : find_history entries nick limit (temp ∷ next)
                ≡ find_history entries nick limit next =
              rw t refl in
            let (i, o, same, fresh, on) =
              find_history-some entries nick limit next c (sym step ∙ e) in
            (i, ground (arith, o), same, fresh, on)
        | inr f ↦
            let step : find_history entries nick limit (temp ∷ next) ≡ (entries temp).online =
              rw f refl in
            let same : same_name nick (entries temp).name ≡ true = ground (arith, f) in
            (temp, occ-head temp next, same, ground (arith, f, same), sym step ∙ e)
      ]

-- A client that get_history gives is online under an entry of the ring that the lists know by the
-- hash value of the nickname, whose name is the nickname up to case, and which is not older than
-- `timelimit`.
pub get_history-some :
    (s : State) (nick : Text) (timelimit : ℕ) (c : ℕ)
    → IsValid s
    → get_history nick timelimit s ≡ some c
    → (i : ℕ) × (hash_key s i ≡ some (hash_whowas_name nick))
      × (same_name nick (s.entries i).name ≡ true)
      × (s.now ≤ (s.entries i).logoff + timelimit)
      × (client_key s i ≡ some c)
unfolding get_history
get_history-some s nick timelimit c h e =
    let (i, o, same, fresh, on) =
      find_history-some s.entries nick (s.now - timelimit) (s.hash (hash_whowas_name nick)) c e in
    (
      i,
      points-some (hash_key s i) (hash_whowas_name nick)
          (subst (λ n. 0 < n) (h.by_hash i (hash_whowas_name nick)) o),
      same,
      omega (arith, fresh),
      on,
    )

-- off_history takes a client that goes away off all its entries, and keeps the lists an index of
-- the ring: its own list is empty, and no later lookup under any nickname gives the client, whose
-- memory is reused.
pub off_history_safe :
    (s : State) (c : ℕ) (nick : Text) (timelimit : ℕ)
    → IsValid s
    → IsValid (off_history c s)
      × ((off_history c s).of_client c ≡ [])
      × (get_history nick timelimit (off_history c s) ≢ some c)
unfolding off_history
off_history_safe s c nick timelimit h =
    let t = off_history c s in
    let (valid, empty) = off_each-IsValid c (s.of_client c) s h refl in
    (
      valid,
      empty,
      λ e.
          let (i, hashed, same, fresh, on) = get_history-some t nick timelimit c valid e in
          let none_ = valid.by_client i c in
          let one : points (client_key t i) c ≡ 1 = rw on (rw (==-refl c) refl) in
          let zero_ : occ i (t.of_client c) ≡ 0 = ap (occ i) empty in
          omega (arith, none_, one, zero_),
    )

hash_whowas_name_lem : (name : Text) → hash_whowas_name name ≡ hash_nick_name name
unfolding hash_whowas_name hash_nick_name
hash_whowas_name_lem name = refl

find_head :
    (entries : ℕ → Entry) (nick : Text) (limit : ℕ) (temp : ℕ) (next : List ℕ)
    → same_name nick (entries temp).name ≡ true
    → limit ≤ (entries temp).logoff
    → find_history entries nick limit (temp ∷ next) ≡ (entries temp).online
unfolding find_history
find_head entries nick limit temp next same fresh =
    let f : (not (same_name nick (entries temp).name) || ltb (entries temp).logoff limit) ≡ false =
      ground (arith, same, fresh) in
    rw f refl

get_history-fill :
    (t : State) (who : ℕ) (cptr : Client) (c : ℕ) (nick : Text) (timelimit : ℕ)
    → length cptr.name ≤ nicklen
    → same_name nick cptr.name ≡ true
    → hash_whowas_name nick ≡ hash_whowas_name cptr.name
    → get_history nick timelimit (fill who cptr (some c) t) ≡ some c
unfolding get_history fill new_entry put_on add_whowas
get_history-fill t who cptr c nick timelimit short same e =
    let filled = fill who cptr (some c) t in
    let x = new_entry t.now cptr (some c) in
    let here : filled.entries who ≡ x = set_at t.entries who x in
    let chain : filled.hash (hash_whowas_name nick) ≡ who ∷ t.hash (hash_whowas_name cptr.name) =
      ap filled.hash e
      ∙ set_at t.hash (hash_whowas_name cptr.name) (who ∷ t.hash (hash_whowas_name cptr.name)) in
    let whole : (filled.entries who).name ≡ cptr.name =
      ap (λ y. y.name) here ∙ take_all nicklen cptr.name short in
    let now : (filled.entries who).logoff ≡ t.now = ap (λ y. y.logoff) here in
    ap (find_history filled.entries nick (t.now - timelimit)) chain
    ∙ find_head filled.entries nick (t.now - timelimit) who (t.hash (hash_whowas_name cptr.name))
        (ap (same_name nick) whole ∙ same) (omega (arith, now))
    ∙ ap (λ y. y.online) here

-- Right after add_history recorded a client that is online under the name that it still has and
-- is about to give up, a lookup of that name in any case gives the client, whatever the ring held
-- and whatever the time limit. The recorded name has at most NICKLEN bytes, and neither it nor the
-- name that is looked up has a NUL.
pub get_history-add_history :
    (s : State) (cptr : Client) (c : ℕ) (nick : Text) (timelimit : ℕ)
    → length cptr.name ≤ nicklen
    → All IsChar cptr.name
    → All IsChar nick
    → same_name nick cptr.name ≡ true
    → get_history nick timelimit (add_history cptr (some c) s) ≡ some c
unfolding add_history
get_history-add_history s cptr c nick timelimit short hn hk same =
    get_history-fill (unlink (s.entries s.next).hashv s.next s) s.next cptr c nick timelimit short
      same
      (hash_whowas_name_lem nick
        ∙ (hash-same_name nick cptr.name hk hn same).0
        ∙ sym (hash_whowas_name_lem cptr.name))
