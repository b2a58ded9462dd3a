-- ===== src/Channel/Bans/Count.antt =====
-- What the ban lists of src/channel.c hold, and that `num_bed` counts them.
use igniteircd.Prelude.{
  ℕ, ◌+◌, ◌≤◌, ◌≡◌, refl, sym, ap, ◌∙◌, ◌↔◌, ◌⊎◌, inl, inr, Bool, true, false, not, ◌&&◌, Option,
  none, some, List, [], ◌∷◌, ◌++◌, Text, length, leb, Bool-cases, Option-cases, arith,
}
use mathlib.Core.Bool.{false≢true}
use igniteircd.Mask.Compare.{same_name}
use igniteircd.Channel.{
  Client, Channel, Ban, is_server, is_person, my_client, is_empowered, chfl_ban,
}
use igniteircd.Channel.Bans.{
  added, covers, collapsed, new_ban, add_banid, add_exceptid, take_out, one_less, drop_ban,
  drop_exception, del_banid, del_exceptid, hits, del_matching_exception, any_hits, is_banned,
  free_bans_exceptions_denies, maxbans,
}

abbrev pub IsCounted : Channel → Type 0
IsCounted ch = ch.num_bed ≡ length ch.banlist + length ch.exceptlist

length-take_out :
    (test : Ban → Bool) (bans left : List Ban)
    → take_out test bans ≡ some left
    → length bans ≡ length left + 1
unfolding take_out
length-take_out test [] left e = cc
length-take_out test (b ∷ bans) left e = elim (Bool-cases (test b)) [
  | inl t ↦ let same : bans ≡ left = ground (arith, e, t) in omega (arith, ap length same)
  | inr f ↦ elim (Option-cases (take_out test bans)) [
    | inl n ↦ ground (arith, e, f, n)
    | inr (rest, r) ↦
        let same : (b ∷ rest) ≡ left = ground (arith, e, f, r) in
        omega (arith, ap length same, length-take_out test bans rest r)
  ]
]

drop_ban-IsCounted :
    (test : Ban → Bool) (ch : Channel)
    → IsCounted ch
    → IsCounted (drop_ban ch (take_out test ch.banlist))
unfolding drop_ban one_less
drop_ban-IsCounted test ch h = elim (Option-cases (take_out test ch.banlist)) [
  | inl n ↦ rw n h
  | inr (left, e) ↦ let size = length-take_out test ch.banlist left e in rw e (ground arith)
]

drop_exception-IsCounted :
    (test : Ban → Bool) (ch : Channel)
    → IsCounted ch
    → IsCounted (drop_exception ch (take_out test ch.exceptlist))
unfolding drop_exception one_less
drop_exception-IsCounted test ch h = elim (Option-cases (take_out test ch.exceptlist)) [
  | inl n ↦ rw n h
  | inr (left, e) ↦ let size = length-take_out test ch.exceptlist left e in rw e (ground arith)
]

del_banid-IsCounted : (ch : Channel) (o : Option Text) → IsCounted ch → IsCounted (del_banid ch o)
unfolding del_banid
del_banid-IsCounted ch none h = h
del_banid-IsCounted ch (some id) h = drop_ban-IsCounted (λ b. same_name id b.banstr) ch h

del_exceptid-IsCounted :
    (ch : Channel) (o : Option Text) → IsCounted ch → IsCounted (del_exceptid ch o)
unfolding del_exceptid
del_exceptid-IsCounted ch none h = h
del_exceptid-IsCounted ch (some id) h = drop_exception-IsCounted (λ b. same_name id b.banstr) ch h

del_matching_exception-IsCounted :
    (c : Client) (ch : Channel) → IsCounted ch → IsCounted (del_matching_exception c ch)
unfolding del_matching_exception
del_matching_exception-IsCounted c ch h = elim (Bool-cases (is_person c)) [
  | inl t ↦ rw t (drop_exception-IsCounted (hits c) ch h)
  | inr f ↦ rw f h
]

add_banid-IsCounted :
    (c : Client) (now : ℕ) (ch : Channel) (id : Text)
    → IsCounted ch
    → IsCounted (add_banid c now ch id).1
unfolding add_banid
add_banid-IsCounted c now ch id h = ground arith

add_exceptid-IsCounted :
    (c : Client) (now : ℕ) (ch : Channel) (id : Text)
    → IsCounted ch
    → IsCounted (add_exceptid c now ch id).1
unfolding add_exceptid
add_exceptid-IsCounted c now ch id h = ground arith

-- When num_bed is the number of bans and exceptions, it still is after every operation on the
-- two lists: an addition, whether it is accepted or not, a deletion, whether it finds its
-- entry or not, the removal of a kicked client's exception, and the end of the channel.
pub num_bed-IsCounted :
    (c : Client) (now : ℕ) (ch : Channel) (id : Text) (o : Option Text)
    → IsCounted ch
    → IsCounted (add_banid c now ch id).1
      × IsCounted (add_exceptid c now ch id).1
      × IsCounted (del_banid ch o)
      × IsCounted (del_exceptid ch o)
      × IsCounted (del_matching_exception c ch)
      × IsCounted (free_bans_exceptions_denies ch)
unfolding free_bans_exceptions_denies
num_bed-IsCounted c now ch id o h = (
  add_banid-IsCounted c now ch id h,
  add_exceptid-IsCounted c now ch id h,
  del_banid-IsCounted ch o h,
  del_exceptid-IsCounted ch o h,
  del_matching_exception-IsCounted c ch h,
  refl,
)

-- The removal of a ban that was accepted gives the channel back as it was, whatever the case of
-- the letters of its mask; a local client's mask is removed by its collapsed form.
pub del_banid-add_banid :
    (c : Client) (now : ℕ) (ch : Channel) (id id' : Text)
    → (add_banid c now ch id).0 ≡ added
    → same_name id' (collapsed c id) ≡ true
    → del_banid (add_banid c now ch id).1 (some id') ≡ ch
unfolding add_banid del_banid take_out drop_ban one_less new_ban
del_banid-add_banid c now ch id id' e s =
    let full = (not (is_server c) && is_empowered c && leb maxbans ch.num_bed) && my_client c in
    elim (Bool-cases full) [
      | inl t ↦ ground (arith, e, t)
      | inr f ↦ elim (Bool-cases (covers ch.banlist (collapsed c id))) [
        | inl t ↦ ground (arith, e, f, t)
        | inr g ↦
            let size : one_less (ch.num_bed + 1) ≡ ch.num_bed = ground arith in
            rw (f, g, s) (ap (λ k. record ch { num_bed = k }) size)
      ]
    ]

-- Each side of a list around an entry that matches the client.
abbrev pub HasHit : Client → List Ban → Type 0
HasHit c bans = (front back : List Ban) × (b : Ban) × (bans ≡ front ++ b ∷ back) × (hits c b ≡ true)

nil_of_hit : (c : Client) → HasHit c [] → ⊥
nil_of_hit c ([], back, b, q, t) = cc
nil_of_hit c (d ∷ front, back, b, q, t) = cc

tail_hit :
    (c : Client) (b : Ban) (bans : List Ban)
    → hits c b ≡ false
    → HasHit c (b ∷ bans)
    → HasHit c bans
tail_hit c b bans f ([], back, d, q, t) =
    let same : b ≡ d = cc in absurd (false≢true (sym f ∙ ap (hits c) same ∙ t))
tail_hit c b bans f (a ∷ front, back, d, q, t) =
    let rest : bans ≡ front ++ d ∷ back = cc in (front, back, d, rest, t)

any_hits_iff : (c : Client) (bans : List Ban) → (any_hits c bans ≡ true) ↔ HasHit c bans
unfolding any_hits
any_hits_iff c [] = (λ e. cc, λ h. absurd (nil_of_hit c h))
any_hits_iff c (b ∷ bans) =
    let (there, back) = any_hits_iff c bans in
    elim (Bool-cases (hits c b)) [
      | inl t ↦ rw t (λ _. ([], bans, b, refl, t), λ _. refl)
      | inr f ↦ rw f (
        λ e. let (front, rest, d, q, t) = there e in (b ∷ front, rest, d, ap (◌∷◌ b) q, t),
        λ h. back (tail_hit c b bans f h),
      )
    ]

-- A client is banned exactly if it is a registered user and a ban of the channel matches it
-- under its host name or its address; the answer is then CHFL_BAN, and 0 otherwise.
pub is_banned_iff :
    (c : Client) (ch : Channel)
    → ((is_banned c ch ≡ chfl_ban) ↔ ((is_person c ≡ true) × HasHit c ch.banlist))
      × ((is_banned c ch ≡ chfl_ban) ⊎ (is_banned c ch ≡ 0))
unfolding is_banned
is_banned_iff c ch =
    let (there, back) = any_hits_iff c ch.banlist in
    elim (Bool-cases (is_person c)) [
      | inr f ↦ rw f ((λ e. absurd (omega arith), λ h. absurd (false≢true (h.0))), inr refl)
      | inl t ↦ elim (Bool-cases (any_hits c ch.banlist)) [
        | inl a ↦ rw (t, a) ((λ _. (refl, there a), λ _. refl), inl refl)
        | inr a ↦
            rw (t, a)
              ((λ e. absurd (omega arith), λ h. absurd (false≢true (sym a ∙ back h.1))), inr refl)
      ]
    ]

-- A local client that is no server cannot bring num_bed over MAXBANS by an exception.
pub add_exceptid-bound :
    (c : Client) (now : ℕ) (ch : Channel) (id : Text)
    → my_client c ≡ true
    → is_server c ≡ false
    → ch.num_bed ≤ maxbans
    → (add_exceptid c now ch id).1.num_bed ≤ maxbans
unfolding add_exceptid
add_exceptid-bound c now ch id e f h = ground (arith, e, f)
